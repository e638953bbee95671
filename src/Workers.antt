-- ===== src/Workers.antt =====
-- server/internal/api/rest/workers.go: what workers ask for, and the list of workers. A handler gets
-- the authenticated worker or member, the body, and the tables, and gives the reply and the tables.
pub mod Registration
pub mod Registered
pub mod Reports
pub mod Listing
use mini_control_public.Prelude.{
  ℕ, Bool, true, false, ◌&&◌, not, List, [], ◌∷◌, ◌++◌, Option, none, some, if◌then◌else◌, map,
  keep_if, is_some,
}
use mini_control_public.Text.{Text, text_eq}
use mini_control_public.Model.{Worker, active, Workstation, Member, PowerState}
use mini_control_public.Db.{Db, Error, not_found, is_not_found, Result, ok, err, after}
use mini_control_public.Http.{
  Reply, reply, refuse, Message, Body, no_body, bad_body, body, is_empty, tokens_match,
  unauthorized, invalid_json, worker_id_mismatch, hostname_is_required, hardware_uuid_is_required,
  invalid_token, registration_failed, failed, failed_to_assign_hostname,
  workstation_does_not_belong_to_worker,
}
use mini_control_public.WorkerTokens.{
  Issuing, get_worker_by_hardware_uuid, hash_worker_token, issue_worker_token,
}
use mini_control_public.Vms.{upsert_worker, update_heartbeat, list_workers}
use mini_control_public.Power.{Report, update_workstation_status}
use mini_control_public.Workstations.{
  get_workstation_by_id, DesiredWorkstation, list_desired_workstations_by_worker,
  list_all_workstations, is_of_member,
}
use mini_control_public.Proxy.{SessionManager, close_by_worker}
use mini_control_public.Hostnames.{generate_worker_id, assign_hostname}

pub record WorkerRegisterRequest : Type 0 where
  pub hostname : Text
  pub hardware_uuid : Text
  pub cpu_cores : ℕ
  pub memory_bytes : ℕ
  pub tart_version : Text
  pub worker_version : Text
  pub worker_token : Text

-- The fields of `HandlerConfig` that the handlers read.
pub record WorkerConfig : Type 0 where
  pub pool_size : ℕ
  pub base_image : Text
  pub enrollment_token : Text

pub record RegisterReply : Type 0 where
  pub worker_id : Text
  pub pool_size : ℕ
  pub base_image : Text
  pub worker_token : Option Text

abbrev pub State : Type 0
State = Db × SessionManager

-- The stored hash, unless it is missing or empty, or was revoked.
abbrev pub live_hash : Worker → Option Text
live_hash w = elim w.auth_token_hash [
  | none ↦ none
  | some hash ↦
      if not (is_empty hash) && not (is_some w.auth_token_revoked_at) then some hash else none
]

abbrev pub matches_live : Option Text → Text → Bool
matches_live none presented_hash = false
matches_live (some hash) presented_hash = tokens_match hash presented_hash

-- `{true, nil}` if the token is the enrollment token, and otherwise `pgx.ErrNoRows`.
abbrev pub if_enrolling : Text → Text → Result Bool
if_enrolling enrollment_token presented_token =
    if tokens_match enrollment_token presented_token then ok true else err not_found

module _ (sha256 : Text → List ℕ) where
  abbrev pub decide : Text → Text → Result Worker → Result Bool
  decide enrollment_token presented_token (err e) =
      if is_not_found e then if_enrolling enrollment_token presented_token else err e
  decide enrollment_token presented_token (ok w) =
      if matches_live (live_hash w) (hash_worker_token sha256 presented_token)
      then ok false
      else if_enrolling enrollment_token presented_token

  unfoldable pub should_issue_worker_token : Text → Text → Text → Db → Result Bool
  should_issue_worker_token enrollment_token hardware_uuid presented_token db =
      decide enrollment_token presented_token (get_worker_by_hardware_uuid db hardware_uuid)

  abbrev pub worker_row : WorkerConfig → WorkerRegisterRequest → Worker
  worker_row cfg req = record {
    id = generate_worker_id sha256 req.hardware_uuid;
    hostname = req.hostname;
    hardware_uuid = req.hardware_uuid;
    cpu_cores = req.cpu_cores;
    memory_bytes = req.memory_bytes;
    tart_version = req.tart_version;
    worker_version = req.worker_version;
    pool_size = cfg.pool_size;
    base_image = cfg.base_image;
    status = active;
    registered_at = 0;
    last_heartbeat = none;
    auth_token_hash = none;
    auth_token_last_used_at = none;
    auth_token_revoked_at = none;
  }

  abbrev pub register_reply : WorkerConfig → Text → Option Text → RegisterReply
  register_reply cfg worker_id token = record {
    worker_id = worker_id;
    pool_size = cfg.pool_size;
    base_image = cfg.base_image;
    worker_token = token;
  }

  -- The last part of the registration: `if shouldIssueWorkerToken`.
  abbrev pub issued_reply :
      WorkerConfig → Text → Db → SessionManager → Result (Text × Db) → Reply RegisterReply × State
  issued_reply cfg worker_id db sm (err e) = (refuse 500 registration_failed, (db, sm))
  issued_reply cfg worker_id db sm (ok (token, db')) =
      (reply 200 (register_reply cfg worker_id (some token)), (db', sm))

  abbrev pub hand_out :
      WorkerConfig → ℕ → Issuing → Text → Bool → Db → SessionManager → Reply RegisterReply × State
  hand_out cfg now issuing worker_id false db sm =
      (reply 200 (register_reply cfg worker_id none), (db, sm))
  hand_out cfg now issuing worker_id true db sm =
      issued_reply cfg worker_id db sm
        (issue_worker_token sha256 now issuing.token_bytes issuing.executes worker_id db)

  abbrev pub enter :
      WorkerConfig → ℕ → Issuing → Text → Bool → State → Result Db → Reply RegisterReply × State
  enter cfg now issuing worker_id issue st (err e) = (refuse 500 registration_failed, st)
  enter cfg now issuing worker_id issue st (ok db) =
      hand_out cfg now issuing worker_id issue db (close_by_worker worker_id st.1).0

  abbrev pub admit :
      WorkerConfig
      → ℕ
      → Issuing
      → WorkerRegisterRequest
      → State
      → Result Bool
      → Reply RegisterReply × State
  admit cfg now issuing req st (err e) =
      (if is_not_found e then refuse 401 invalid_token else refuse 500 registration_failed, st)
  admit cfg now issuing req st (ok issue) =
      enter cfg now issuing (generate_worker_id sha256 req.hardware_uuid) issue st
        (upsert_worker now (worker_row cfg req) st.0)

  unfoldable pub handle_worker_register :
      WorkerConfig → ℕ → Issuing → Body WorkerRegisterRequest → State → Reply RegisterReply × State
  unfolding should_issue_worker_token
  handle_worker_register cfg now issuing (body req) st =
      if is_empty req.hostname
      then (refuse 400 hostname_is_required, st)
      else if is_empty req.hardware_uuid
      then (refuse 400 hardware_uuid_is_required, st)
      else if is_empty req.worker_token
      then (refuse 401 invalid_token, st)
      else admit cfg now issuing req st
          (should_issue_worker_token cfg.enrollment_token req.hardware_uuid req.worker_token st.0)
  handle_worker_register cfg now issuing b st = (refuse 400 invalid_json, st)

  unfoldable pub handle_assign_hostname : ℕ → Body Text → Db → Reply Text × Db
  handle_assign_hostname now (body hardware_uuid) db =
      if is_empty hardware_uuid
      then (refuse 400 hardware_uuid_is_required, db)
      else elim (assign_hostname sha256 now hardware_uuid db) [
        | err e ↦ (refuse 500 failed_to_assign_hostname, db)
        | ok p ↦ (reply 200 p.0, p.1)
      ]
  handle_assign_hostname now b db = (refuse 400 invalid_json, db)

-- The loop over `body.WorkstationStatuses`: an error of one is logged.
unfoldable pub report_all : ℕ → Text → List Report → Db → Db
report_all now worker_id [] db = db
report_all now worker_id (r ∷ rs) db =
    report_all now worker_id rs (after db (update_workstation_status now worker_id r db))

-- Behind `requireWorkerPathMatch`: the heartbeat is noted before the body is read.
unfoldable pub heartbeat : ℕ → Text → Body (List Report) → Db → Reply (List DesiredWorkstation) × Db
unfolding report_all
heartbeat now worker_id (body rs) db =
    let db' = report_all now worker_id rs (update_heartbeat now worker_id db) in
    (reply 200 (list_desired_workstations_by_worker db' worker_id), db')
heartbeat now worker_id b db = (refuse 400 invalid_json, update_heartbeat now worker_id db)

-- `worker` is the ID of the authenticated worker, `path_id` the ID in the path.
unfoldable pub handle_worker_heartbeat :
    ℕ → Option Text → Text → Body (List Report) → Db → Reply (List DesiredWorkstation) × Db
unfolding heartbeat
handle_worker_heartbeat now none path_id b db = (refuse 401 unauthorized, db)
handle_worker_heartbeat now (some worker_id) path_id b db =
    if text_eq path_id worker_id
    then heartbeat now worker_id b db
    else (refuse 403 worker_id_mismatch, db)

-- The body of a state report: `report.workstation_id` stands in the path.
pub record VmStateRequest : Type 0 where
  pub worker_id : Text
  pub state : Text
  pub ip_address : Text
  pub error_message : Text

abbrev pub report_of : Text → VmStateRequest → Report
report_of vm_id b = record {
  workstation_id = vm_id;
  power_state = b.state;
  ip_address = b.ip_address;
  last_error = b.error_message;
}

abbrev pub answer_report : Db → Result (Unit {0} × Db) → Reply (Unit {0}) × Db
answer_report db (err e) = (refuse 500 failed, db)
answer_report db (ok (_, db')) = (reply 200 tt, db')

-- What follows the lookup of the workstation.
abbrev pub report_state :
    ℕ → Text → Text → VmStateRequest → Db → Result Workstation → Reply (Unit {0}) × Db
report_state now worker_id vm_id b db (err e) =
    if is_not_found e
    then answer_report db (update_workstation_status now worker_id (report_of vm_id b) db)
    else (refuse 500 failed, db)
report_state now worker_id vm_id b db (ok w) =
    if text_eq w.worker_id worker_id
    then answer_report db (update_workstation_status now worker_id (report_of vm_id b) db)
    else (refuse 403 workstation_does_not_belong_to_worker, db)

unfoldable pub handle_vm_state :
    ℕ → Option Text → Text → Body VmStateRequest → Db → Reply (Unit {0}) × Db
handle_vm_state now none vm_id b db = (refuse 401 unauthorized, db)
handle_vm_state now (some worker_id) vm_id (body b) db =
    if not (is_empty b.worker_id) && not (text_eq b.worker_id worker_id)
    then (refuse 403 worker_id_mismatch, db)
    else report_state now worker_id vm_id b db (get_workstation_by_id db vm_id)
handle_vm_state now (some worker_id) vm_id b db = (refuse 400 invalid_json, db)

pub record BrowserVm : Type 0 where
  pub id : Text
  pub worker_id : Text
  pub state : PowerState
  pub ip_address : Text
  pub state_since : ℕ
  pub created_at : ℕ

abbrev pub browser_vm : Workstation → BrowserVm
browser_vm w = record {
  id = w.id;
  worker_id = w.worker_id;
  state = w.power_state;
  ip_address = w.ip_address;
  state_since = w.updated_at;
  created_at = w.created_at;
}

-- The map `vmsByWorker`, with the nil slice for a key that is missing.
abbrev pub VmsByWorker : Type 0
VmsByWorker = Text → List BrowserVm

abbrev pub append_vm : Text → BrowserVm → VmsByWorker → VmsByWorker
append_vm worker_id vm vms i = if text_eq i worker_id then vms i ++ vm ∷ [] else vms i

unfoldable pub group_vms : List Workstation → VmsByWorker → VmsByWorker
group_vms [] vms = vms
group_vms (w ∷ ws) vms = group_vms ws (append_vm w.worker_id (browser_vm w) vms)

-- A member sees their own workstations, an administrator, who is no member, all.
abbrev pub filtered : Option Member → List Workstation → List Workstation
filtered none ws = ws
filtered (some m) ws = keep_if (is_of_member m.id) ws

unfoldable pub handle_list_workers : Option Member → Db → Reply (List (Worker × List BrowserVm))
unfolding group_vms
handle_list_workers m db =
    let vms_by_worker = group_vms (filtered m (list_all_workstations db)) (λ i. []) in
    reply 200 (map (λ w. (w, vms_by_worker w.id)) (list_workers db))
