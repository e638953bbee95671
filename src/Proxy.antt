-- ===== src/Proxy.antt =====
-- server/internal/proxy/session.go: the sessions that pair a client's WebSocket with a worker's.
-- A connection is a number. The map `sessions` is a list in no particular order. Handlers keep
-- pointers to sessions that have left the map, so those stay in `gone`. `shut` lists the
-- connections on which `CloseNow` was called.
pub mod Close
pub mod Invariant
pub mod History
pub mod Race
use mini_control_public.Prelude.{
  ℕ, ◌+◌, ◌-◌, ◌/◌, ◌%◌, Bool, true, false, ◌&&◌, ◌||◌, List, [], ◌∷◌, ◌++◌, Option, none, some,
  map, length, find_if, keep_if, any_of, update_where, delete_where, is_some, ltb, ◌==◌,
  if◌then◌else◌,
}
use mini_control_public.Text.{Text, codes, text_eq, hex_encode}

pub data SessionState : Type 0 where
  pending active closed : SessionState

pub data ProxyTarget : Type 0 where
  vm host : ProxyTarget

-- `ready` and `done` tell whether those channels are closed.
pub record ProxySession : Type 0 where
  pub id : Text
  pub target : ProxyTarget
  pub vm_id : Text
  pub worker_id : Text
  pub port : ℕ
  pub token : Text
  pub state : SessionState
  pub created_at : ℕ
  pub client_conn : Option ℕ
  pub worker_conn : Option ℕ
  pub ready : Bool
  pub done : Bool

pub record SessionManager : Type 0 where
  pub sessions : List ProxySession
  pub gone : List ProxySession
  pub shut : List ℕ

unfoldable pub new_session_manager : SessionManager
new_session_manager = record { sessions = []; gone = []; shut = [] }

-- `AllowedPorts`.
pub allowed_port : ℕ → Bool
allowed_port port = port == 5900 || port == 22

abbrev pub named : Text → ProxySession → Bool
named i s = text_eq s.id i

-- `uuid` and `token_bytes` are what `uuid.NewString` and `rand.Read` give.
unfoldable pub new_session : ProxyTarget → Text → Text → ℕ → Text → List ℕ → ℕ → ProxySession
new_session target vm_id worker_id port uuid token_bytes now = record {
  id = uuid;
  target = target;
  vm_id = vm_id;
  worker_id = worker_id;
  port = port;
  token = hex_encode token_bytes;
  state = pending;
  created_at = now;
  client_conn = none;
  worker_conn = none;
  ready = false;
  done = false;
}

-- `sm.sessions[s.ID] = s`: an entry of the same key is replaced.
unfoldable pub create : ProxySession → SessionManager → SessionManager
create s sm = record sm { sessions = s ∷ delete_where (named s.id) sm.sessions }

unfoldable pub get : SessionManager → Text → Option ProxySession
get sm i = find_if (named i) sm.sessions

abbrev pub is_pending : SessionState → Bool
is_pending pending = true
is_pending s = false

pub get_pending : SessionManager → Text → List ProxySession
get_pending sm worker_id =
    keep_if (λ s. text_eq s.worker_id worker_id && is_pending s.state) sm.sessions

-- The role of a connection; any other text leaves both fields alone.
pub data Role : Type 0 where
  client worker other : Role

pub role_of : Text → Role
role_of t =
    if text_eq t (codes "client")
    then client
    else if text_eq t (codes "worker")
    then worker
    else other

abbrev pub with_conn : Role → ℕ → ProxySession → ProxySession
with_conn client conn s = record s { client_conn = some conn }
with_conn worker conn s = record s { worker_conn = some conn }
with_conn other conn s = s

abbrev pub both_set : ProxySession → Bool
both_set s = is_some s.client_conn && is_some s.worker_conn

-- `s.State = SessionActive`, and `close(s.ready)` where it is not closed.
abbrev pub activate : ProxySession → ProxySession
activate s = record s { state = active; ready = true }

-- What `SetConn` does to the session behind the pointer, under the session's own lock.
unfoldable pub store_conn : Role → ℕ → ProxySession → ProxySession
store_conn role conn s = let t = with_conn role conn s in if both_set t then activate t else t

-- `SetConn`, undisturbed between the lookup and the store.
pub set_conn : Text → Role → ℕ → SessionManager → SessionManager × Bool
unfolding get store_conn
set_conn i role conn sm = elim (get sm i) [
  | none ↦ (sm, false)
  | some s ↦ (
    record sm { sessions = update_where (named i) (store_conn role conn) sm.sessions },
    both_set (with_conn role conn s),
  )
]

abbrev pub conns_of : Option ℕ → List ℕ
conns_of none = []
conns_of (some c) = c ∷ []

-- The session behind the pointer once `Close` is through with it.
abbrev pub shut_session : ProxySession → ProxySession
shut_session s = record s { state = closed; done = true }

unfoldable pub close : Text → SessionManager → SessionManager
unfolding get
close i sm = elim (get sm i) [
  | none ↦ sm
  | some s ↦ record {
    sessions = delete_where (named i) sm.sessions;
    gone = shut_session s ∷ sm.gone;
    shut = conns_of s.client_conn ++ (conns_of s.worker_conn ++ sm.shut);
  }
]

pub close_all : List Text → SessionManager → SessionManager
close_all [] sm = sm
close_all (i ∷ is) sm = close_all is (close i sm)

-- `CloseByWorker`, `CloseByVM` and `reap` first collect the IDs, then close one after the other.
abbrev pub ids_of : (ProxySession → Bool) → SessionManager → List Text
ids_of p sm = map (λ s. s.id) (keep_if p sm.sessions)

pub close_by_worker : Text → SessionManager → SessionManager × ℕ
unfolding close_all
close_by_worker worker_id sm =
    let ids = ids_of (λ s. text_eq s.worker_id worker_id) sm in (close_all ids sm, length ids)

pub close_by_vm : Text → SessionManager → SessionManager × ℕ
unfolding close_all
close_by_vm vm_id sm =
    let ids = ids_of (λ s. text_eq s.vm_id vm_id) sm in (close_all ids sm, length ids)

-- 60 seconds.
abbrev pub pending_session_max_age : ℕ
pending_session_max_age = 60_000_000_000

abbrev pub is_stale : ℕ → ProxySession → Bool
is_stale now s = is_pending s.state && ltb pending_session_max_age (now - s.created_at)

pub reap : ℕ → SessionManager → SessionManager
unfolding close_all
reap now sm = close_all (ids_of (is_stale now) sm) sm
