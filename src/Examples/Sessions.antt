-- ===== src/Examples/Sessions.antt =====
-- Histories of the proxy's session manager.
use mini_control_public.Prelude.{◌≡◌, refl, false, List, [], ◌∷◌, none, some, find_if, any_of, ◌==◌}
use mini_control_public.Text.{codes, text_eq}
use mini_control_public.Proxy.{
  SessionManager, vm, ProxySession, active, pending, Role, new_session_manager, get, close, named,
  store_conn, shut_session,
}
use mini_control_public.Proxy.Invariant.{Inv}
use mini_control_public.Proxy.History.{Call, creates, connects, run, run-Inv}
use mini_control_public.Proxy.Race.{store_late, set_conn-late}

abbrev fresh : ProxySession
fresh = record {
  id = codes "s";
  target = vm;
  vm_id = codes "v";
  worker_id = codes "w";
  port = 5900;
  token = codes "07";
  state = pending;
  created_at = 0;
  client_conn = none;
  worker_conn = none;
  ready = false;
  done = false;
}

abbrev morning : List Call
morning = creates vm (codes "v") (codes "w") 5900 (codes "s") (7 ∷ []) 0 ∷ []

run-Inv_example : Inv (run new_session_manager (connects (codes "s") Role.client 4 ∷ morning))
run-Inv_example = run-Inv (connects (codes "s") Role.client 4 ∷ morning)

abbrev half_open : SessionManager
half_open = record { sessions = record fresh { worker_conn = some 8 } ∷ []; gone = []; shut = [] }

set_conn-late_example :
    let s : ProxySession = record fresh { worker_conn = some 8 } in
    let sm' = store_late (codes "s") Role.client 9 (close (codes "s") half_open) in
    (get sm' (codes "s") ≡ none)
    × (find_if (named (codes "s")) sm'.gone ≡ some (store_conn Role.client 9 (shut_session s)))
    × ((store_conn Role.client 9 (shut_session s)).state ≡ active)
    × (any_of (λ d. d == 9) (close (codes "s") sm').shut ≡ false)
    × (close (codes "s") sm' ≡ sm')
unfolding get close text_eq
set_conn-late_example =
    set_conn-late (codes "s") Role.client 9 half_open (record fresh { worker_conn = some 8 }) refl
      refl refl
