-- ===== src/ProxySessions.antt =====
-- server/internal/api/rest/proxy_sessions.go: opening proxy sessions, polling for them, and joining
-- them by WebSocket. A handler gives the reply and the session manager behind it.
pub mod Opened
use mini_control_public.Prelude.{
  ℕ, zero, suc, ◌+◌, Bool, true, false, ◌&&◌, ◌||◌, not, List, [], ◌∷◌, Option, none, some,
  if◌then◌else◌,
}
use mini_control_public.Text.{Text, codes, text_eq, trim_space}
use mini_control_public.Model.{Worker, Workstation, Member, PowerState}
use mini_control_public.Db.{Db, is_not_found, Result, ok, err}
use mini_control_public.Access.{ℤ, pos, negsuc}
use mini_control_public.Http.{
  Reply, reply, refuse, panic, Message, Body, no_body, bad_body, body, is_empty, tokens_match,
  unauthorized, invalid_json, invalid_token, worker_id_mismatch, port_is_required, port_not_allowed,
  host_access_is_not_available, workstation_not_running, worker_id_is_required_for_host_target,
  vm_id_is_required_for_vm_target, vm_not_found, vm_not_available, target_must_be_vm_or_host,
  failed_to_load_workstation, missing_parameters, invalid_role, session_not_found, page_not_found,
}
use mini_control_public.Host.{Heading, matches_host}
use mini_control_public.Workstations.{get_workstation_by_id}
use mini_control_public.Vms.{Vm, VmState, get_vm}
use mini_control_public.Proxy
use mini_control_public.Proxy.{
  SessionManager, ProxySession, ProxyTarget, vm, host, allowed_port, new_session, create, get,
  get_pending, set_conn, role_of, close,
}
use mini_control_public.MyWorkstations.{
  WorkstationStore, Resolved, resolved, api_error, resolve_member_workstation,
}

pub record CreateRequest : Type 0 where
  pub target : Text
  pub vm_id : Text
  pub worker_id : Text
  pub port : ℤ

-- The target, the worker and the VM of a session, or an `apiError`.
pub data Target : Type 0 where
  to_target : ProxyTarget → Text → Text → Target
  target_error : ℕ → Message → Target

abbrev pub is_running : PowerState → Bool
is_running PowerState.running = true
is_running p = false

-- `VMStateReady`, `VMStateBusy` or `VMStateBootstrapping`.
abbrev pub is_available : VmState → Bool
is_available VmState.vm_ready = true
is_available VmState.vm_busy = true
is_available VmState.vm_bootstrapping = true
is_available s = false

abbrev pub by_vm : Text → Result Vm → Target
by_vm vm_id (err e) = target_error 404 vm_not_found
by_vm vm_id (ok v) =
    if is_available v.state
    then to_target vm v.worker_id vm_id
    else target_error 409 vm_not_available

abbrev pub by_workstation : List Vm → Text → Result Workstation → Target
by_workstation vms vm_id (ok w) =
    if is_running w.power_state
    then to_target vm w.worker_id w.id
    else target_error 409 workstation_not_running
by_workstation vms vm_id (err e) =
    if is_not_found e
    then by_vm vm_id (get_vm vm_id vms)
    else target_error 500 failed_to_load_workstation

abbrev pub or_vm : Text → Text
or_vm target = if is_empty target then codes "vm" else target

unfoldable pub resolve_proxy_target : Db → List Vm → Text → Text → Text → Target
resolve_proxy_target db vms target vm_id worker_id =
    if text_eq (or_vm target) (codes "host")
    then if is_empty worker_id
      then target_error 400 worker_id_is_required_for_host_target
      else to_target host worker_id []
    else if text_eq (or_vm target) (codes "vm")
    then if is_empty vm_id
      then target_error 400 vm_id_is_required_for_vm_target
      else by_workstation vms vm_id (get_workstation_by_id db vm_id)
    else target_error 400 target_must_be_vm_or_host

-- The ID and the token of the session that was opened.
abbrev pub Opening : Type 0
Opening = Reply (Text × Text) × SessionManager

-- `h.proxy.Create` with the ID, the random bytes and the time of the call, and the reply.
abbrev pub open_session : Text → List ℕ → ℕ → ℕ → SessionManager → Target → Opening
open_session uuid token_bytes now port sm (target_error status why) = (refuse status why, sm)
open_session uuid token_bytes now port sm (to_target target worker_id vm_id) =
    let s = new_session target vm_id worker_id port uuid token_bytes now in
    (reply 201 (s.id, s.token), create s sm)

abbrev pub member_target : Resolved → Target
member_target (api_error status why) = target_error status why
member_target (resolved w) =
    if is_running w.power_state
    then to_target vm w.worker_id w.id
    else target_error 409 workstation_not_running

module _ (store : WorkstationStore Db) where
  -- The target of a member's request, and of an administrator's, who is no member.
  unfoldable pub target_of : Option Member → CreateRequest → Db → List Vm → Target
  unfolding resolve_proxy_target
  target_of none req db vms = resolve_proxy_target db vms req.target req.vm_id req.worker_id
  target_of (some m) req db vms =
      if text_eq req.target (codes "host")
      then target_error 403 host_access_is_not_available
      else member_target (resolve_member_workstation store db (some m) (trim_space req.vm_id))

  abbrev pub at_port :
      Text
      → List ℕ
      → ℕ
      → Option Member
      → CreateRequest
      → Db
      → List Vm
      → SessionManager
      → ℤ
      → Opening
  at_port uuid token_bytes now m req db vms sm (negsuc n) = (refuse 400 port_is_required, sm)
  at_port uuid token_bytes now m req db vms sm (pos zero) = (refuse 400 port_is_required, sm)
  at_port uuid token_bytes now m req db vms sm (pos (suc n)) =
      if allowed_port (suc n)
      then open_session uuid token_bytes now (suc n) sm (target_of m req db vms)
      else (refuse 403 port_not_allowed, sm)

  unfoldable pub handle_create_proxy_session :
      Text
      → List ℕ
      → ℕ
      → Option Member
      → Body CreateRequest
      → Db
      → List Vm
      → SessionManager
      → Opening
  unfolding target_of
  handle_create_proxy_session uuid token_bytes now m (body req) db vms sm =
      at_port uuid token_bytes now m req db vms sm req.port
  handle_create_proxy_session uuid token_bytes now m b db vms sm = (refuse 400 invalid_json, sm)

abbrev vm_belongs : Text → Result Vm → Bool
vm_belongs worker_id (err e) = false
vm_belongs worker_id (ok v) = text_eq v.worker_id worker_id

abbrev workstation_belongs : List Vm → Text → Text → Result Workstation → Bool
workstation_belongs vms vm_id worker_id (ok w) = text_eq w.worker_id worker_id
workstation_belongs vms vm_id worker_id (err e) =
    if is_not_found e then vm_belongs worker_id (get_vm vm_id vms) else false

unfoldable pub pending_session_belongs_to_worker : Db → List Vm → ProxySession → Text → Bool
pending_session_belongs_to_worker db vms s worker_id =
    workstation_belongs vms s.vm_id worker_id (get_workstation_by_id db s.vm_id)

abbrev pub is_vm : ProxyTarget → Bool
is_vm vm = true
is_vm host = false

-- `s.Target == proxy.ProxyTargetVM && !h.pendingSessionBelongsToWorker(…)`.
unfoldable pub is_misplaced : Db → List Vm → Text → ProxySession → Bool
unfolding pending_session_belongs_to_worker
is_misplaced db vms worker_id s =
    is_vm s.target && not (pending_session_belongs_to_worker db vms s worker_id)

-- The loop over the pending sessions, with the sessions that are answered.
unfoldable pub sift :
    (ProxySession → Bool) → List ProxySession → SessionManager → List ProxySession × SessionManager
sift misplaced [] sm = ([], sm)
sift misplaced (s ∷ ss) sm =
    let (kept, sm') = sift misplaced ss (if misplaced s then close s.id sm else sm) in
    (if misplaced s then kept else s ∷ kept, sm')

-- `requested` is the worker of the query, or empty.
unfoldable pub handle_pending_proxy_sessions :
    Option Text → Text → Db → List Vm → SessionManager → Reply (List ProxySession) × SessionManager
unfolding sift is_misplaced
handle_pending_proxy_sessions none requested db vms sm = (refuse 401 unauthorized, sm)
handle_pending_proxy_sessions (some worker_id) requested db vms sm =
    if not (is_empty requested) && not (text_eq requested worker_id)
    then (refuse 403 worker_id_mismatch, sm)
    else let (kept, sm') = sift (is_misplaced db vms worker_id) (get_pending sm worker_id) sm in
      (reply 200 kept, sm')

module _ (lower_rune : ℕ → ℕ) (parse_url : Text → Option Text) where
  -- `role == "client" && !h.matchesBrowserHost(r)`, and so for the worker.
  abbrev pub wrong_host : Text → Text → Text → Heading → Bool
  wrong_host browser_host worker_host role r =
      (text_eq role (codes "client") && not (matches_host lower_rune parse_url browser_host r))
      || (text_eq role (codes "worker") && not (matches_host lower_rune parse_url worker_host r))

  abbrev pub admit_socket : Text → Option ProxySession → Reply ProxySession
  admit_socket token none = refuse 404 session_not_found
  admit_socket token (some s) =
      if tokens_match s.token token then reply 101 s else refuse 401 invalid_token

  -- The checks of `handleProxyWebSocket` before the upgrade.
  unfoldable pub check_proxy_socket :
      Text → Text → Heading → Text → Text → Text → SessionManager → Reply ProxySession
  check_proxy_socket browser_host worker_host r session_id role token sm =
      if is_empty session_id || is_empty role || is_empty token
      then refuse 400 missing_parameters
      else if not (text_eq role (codes "client")) && not (text_eq role (codes "worker"))
      then refuse 400 invalid_role
      else if wrong_host browser_host worker_host role r
      then refuse 404 page_not_found
      else admit_socket token (get sm session_id)

  -- What follows an upgrade to the connection `conn`: whether the relay starts.
  unfoldable pub handle_proxy_web_socket :
      Text → Text → Heading → Text → Text → Text → ℕ → SessionManager → Reply Bool × SessionManager
  unfolding check_proxy_socket
  handle_proxy_web_socket browser_host worker_host r session_id role token conn sm =
      elim (check_proxy_socket browser_host worker_host r session_id role token sm) [
        | reply status s ↦
            let (sm', both_ready) = set_conn session_id (role_of role) conn sm in
            (reply status both_ready, sm')
        | refuse status why ↦ (refuse status why, sm)
        | panic ↦ (panic, sm)
      ]
