-- ===== src/Proxy/History.antt =====
-- Every history of calls on one manager.
use mini_control_public.Prelude.{ℕ, List, [], ◌∷◌}
use mini_control_public.Text.{Text, text_eq}
use mini_control_public.Proxy.{
  SessionManager, ProxyTarget, ids_of, close, close_by_worker, close_by_vm, reap, is_stale,
  set_conn, Role, create, new_session, new_session_manager,
}
use mini_control_public.Proxy.Invariant.{Inv, create-Inv, set_conn-Inv, close-Inv, close_all-Inv}

pub data Call : Type 0 where
  creates : ProxyTarget → Text → Text → ℕ → Text → List ℕ → ℕ → Call
  connects : Text → Role → ℕ → Call
  closes : Text → Call
  closes_worker : Text → Call
  closes_vm : Text → Call
  reaps : ℕ → Call

unfoldable pub step : SessionManager → Call → SessionManager
step sm (creates t vm_id worker_id port uuid bytes now) =
    create (new_session t vm_id worker_id port uuid bytes now) sm
step sm (connects i r c) = (set_conn i r c sm).0
step sm (closes i) = close i sm
step sm (closes_worker w) = (close_by_worker w sm).0
step sm (closes_vm v) = (close_by_vm v sm).0
step sm (reaps now) = reap now sm

unfoldable pub run : SessionManager → List Call → SessionManager
run sm [] = sm
run sm (c ∷ cs) = run (step sm c) cs

step-Inv : (sm : SessionManager) (c : Call) → Inv sm → Inv (step sm c)
unfolding step close_by_worker close_by_vm reap
step-Inv sm (creates t vm_id worker_id port uuid bytes now) v =
    create-Inv t vm_id worker_id port uuid bytes now sm v
step-Inv sm (connects i r c) v = set_conn-Inv i r c sm v
step-Inv sm (closes i) v = close-Inv i sm v
step-Inv sm (closes_worker w) v = close_all-Inv (ids_of (λ s. text_eq s.worker_id w) sm) sm v
step-Inv sm (closes_vm i) v = close_all-Inv (ids_of (λ s. text_eq s.vm_id i) sm) sm v
step-Inv sm (reaps now) v = close_all-Inv (ids_of (is_stale now) sm) sm v

run_from-Inv : (sm : SessionManager) (cs : List Call) → Inv sm → Inv (run sm cs)
unfolding run
run_from-Inv sm [] v = v
run_from-Inv sm (c ∷ cs) v = run_from-Inv (step sm c) cs (step-Inv sm c v)

-- After every history of calls on a new manager, a session in the map is active exactly if both
-- of its connections are there, which is when its `ready` channel is closed, and its `done`
-- channel is open; session IDs are unique; and every session that was closed is in the closed
-- state with `done` closed and each of its connections shut.
pub run-Inv : (cs : List Call) → Inv (run new_session_manager cs)
unfolding new_session_manager
run-Inv cs = run_from-Inv _ cs (record { sound = tt; keyed = tt; over = tt })
