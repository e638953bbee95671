-- ===== src/Proxy/Race.antt =====
-- `SetConn` looks the session up under the manager's lock and stores the connection under the
-- session's own, so a `Close` may come in between.
use mini_control_public.Prelude.{
  ℕ, ◌≡◌, Bool, true, false, ◌∷◌, none, some, find_if, find_if-delete_where_self, update_where,
  delete_where, is_some, arith, any_of, ◌==◌, find_if-passes, find_if-update_where,
}
use mini_control_public.Text.{Text, text_eq}
use mini_control_public.Proxy.Close.{sessions-close}
use mini_control_public.Proxy.Invariant.{store_conn-id}
use mini_control_public.Proxy.{
  SessionManager, active, ProxySession, named, get, close, Role, store_conn, shut_session,
}

-- The second half of `SetConn`, on the session behind the pointer, in the map or not any more.
pub store_late : Text → Role → ℕ → SessionManager → SessionManager
store_late i role conn sm = record sm {
  sessions = update_where (named i) (store_conn role conn) sm.sessions;
  gone = update_where (named i) (store_conn role conn) sm.gone;
}

abbrev pub missing_side : Role → ProxySession → Bool
missing_side Role.client s = is_some s.worker_conn
missing_side Role.worker s = is_some s.client_conn
missing_side Role.other s = false

pub close-absent : (i : Text) (sm : SessionManager) → get sm i ≡ none → close i sm ≡ sm
unfolding close
close-absent i sm h = rw (h, close)

gone-close :
    (i : Text) (sm : SessionManager) (s : ProxySession)
    → get sm i ≡ some s
    → (close i sm).gone ≡ shut_session s ∷ sm.gone
unfolding close
gone-close i sm s e = rw (e, close)

store_conn-named :
    (i : Text) (r : Role) (c : ℕ) (s : ProxySession) → named i (store_conn r c s) ≡ named i s
store_conn-named i r c s = rw (store_conn-id r c s)

late-absent :
    (i : Text) (role : Role) (conn : ℕ) (sm : SessionManager)
    → get (store_late i role conn (close i sm)) i ≡ none
unfolding get store_late
late-absent i role conn sm = rw (sessions-close i sm) (
    rw
      (find_if-update_where (named i) (named i) (store_conn role conn)
        (delete_where (named i) sm.sessions) (store_conn-named i role conn))
      (rw (find_if-delete_where_self (named i) sm.sessions)))

late-gone :
    (i : Text) (role : Role) (conn : ℕ) (sm : SessionManager) (s : ProxySession)
    → get sm i ≡ some s
    → find_if (named i) (store_late i role conn (close i sm)).gone
      ≡ some (store_conn role conn (shut_session s))
unfolding store_late update_where
late-gone i role conn sm s e =
    let hit : text_eq s.id i ≡ true = find_if-passes (named i) sm.sessions s (unfold get in e) in
    rw (gone-close i sm s e) (rw hit (rw (store_conn-id role conn (shut_session s)) (rw hit)))

late-active :
    (role : Role) (conn : ℕ) (s : ProxySession)
    → missing_side role s ≡ true
    → (store_conn role conn (shut_session s)).state ≡ active
unfolding store_conn
late-active Role.client conn s h = ground arith
late-active Role.worker conn s h = ground arith
late-active Role.other conn s h = cc

-- A new connection that arrives on a session whose other side is connected, while the session is
-- being closed between the lookup and the store, makes the closed session active although it is in
-- the map no more; the connection is not shut, and closing the session again does nothing.
pub set_conn-late :
    (i : Text) (role : Role) (conn : ℕ) (sm : SessionManager) (s : ProxySession)
    → get sm i ≡ some s
    → missing_side role s ≡ true
    → any_of (λ d. d == conn) (close i sm).shut ≡ false
    → let sm' = store_late i role conn (close i sm) in
      (get sm' i ≡ none)
      × (find_if (named i) sm'.gone ≡ some (store_conn role conn (shut_session s)))
      × ((store_conn role conn (shut_session s)).state ≡ active)
      × (any_of (λ d. d == conn) (close i sm').shut ≡ false)
      × (close i sm' ≡ sm')
set_conn-late i role conn sm s e other free =
    let same = close-absent i (store_late i role conn (close i sm)) (late-absent i role conn sm) in
    (
      late-absent i role conn sm,
      late-gone i role conn sm s e,
      late-active role conn s other,
      rw same (unfold store_late in free),
      same,
    )
