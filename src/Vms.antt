-- ===== src/Vms.antt =====
-- server/internal/db/postgres.go: the table of the VMs that workers report, and the heartbeats of
-- workers. `now` is the database's clock.
use mini_control_public.Prelude.{
  none, ℕ, Bool, ◌&&◌, ◌||◌, not, List, [], ◌∷◌, ◌++◌, some, find_if, any_of, keep_if, map,
  update_where, delete_where, order_by, ltb, if◌then◌else◌,
}
use mini_control_public.Text.{Text, text_eq, text_lt}
use mini_control_public.Model.{Worker, active, offline}
use mini_control_public.Db.{Db, Result, ok, err, failure, or_not_found}

pub data VmState : Type 0 where
  vm_starting vm_bootstrapping vm_ready vm_busy vm_destroying vm_failed : VmState

pub record Vm : Type 0 where
  pub id : Text
  pub worker_id : Text
  pub state : VmState
  pub ip_address : Text
  pub state_since : ℕ
  pub created_at : ℕ

abbrev pub has_vm_id : Text → Vm → Bool
has_vm_id i v = text_eq v.id i

abbrev pub runs_on : Text → Vm → Bool
runs_on worker v = text_eq v.worker_id worker

abbrev put_vm : ℕ → Vm → Vm → Vm
put_vm now vm v = record v { state = vm.state; ip_address = vm.ip_address; state_since = now }

-- The worker must be there for a new row, and a row that is there keeps its worker.
unfoldable pub upsert_vm : ℕ → List Worker → Vm → List Vm → Result (List Vm)
upsert_vm now workers vm vms =
    if any_of (has_vm_id vm.id) vms
    then ok (update_where (has_vm_id vm.id) (put_vm now vm) vms)
    else if any_of (λ w. text_eq w.id vm.worker_id) workers
    then ok (vms ++ record vm { state_since = now; created_at = now } ∷ [])
    else err failure

unfoldable pub update_vm_state : ℕ → Text → VmState → List Vm → List Vm
update_vm_state now i state vms =
    update_where (has_vm_id i) (λ v. record v { state = state; state_since = now }) vms

unfoldable pub delete_vm : Text → List Vm → List Vm
delete_vm i vms = delete_where (has_vm_id i) vms

unfoldable pub set_worker_vms_offline : Text → List Vm → List Vm
set_worker_vms_offline worker vms = delete_where (runs_on worker) vms

unfoldable pub collect_vm_ids_for_worker : Text → List Vm → List Text
collect_vm_ids_for_worker worker vms = map (λ v. v.id) (keep_if (runs_on worker) vms)

abbrev is_among : List Text → Text → Bool
is_among ids i = any_of (λ j. text_eq j i) ids

-- `DELETE FROM vms WHERE id = ANY($1)`, if there is anything to delete.
abbrev delete_ids : List Text → List Vm → List Vm
delete_ids [] vms = vms
delete_ids (i ∷ ids) vms = delete_where (λ v. is_among (i ∷ ids) v.id) vms

unfoldable pub delete_missing_vms_for_worker : Text → List Text → List Vm → List Text × List Vm
unfolding collect_vm_ids_for_worker
delete_missing_vms_for_worker worker [] vms =
    (collect_vm_ids_for_worker worker vms, delete_where (runs_on worker) vms)
delete_missing_vms_for_worker worker (i ∷ ids) vms =
    let deleted =
      map (λ v. v.id) (keep_if (λ v. runs_on worker v && not (is_among (i ∷ ids) v.id)) vms) in
    (deleted, delete_ids deleted vms)

unfoldable pub list_vms_by_worker : Text → List Vm → List Vm
list_vms_by_worker worker vms = keep_if (runs_on worker) vms

unfoldable pub get_vm : Text → List Vm → Result Vm
get_vm i vms = or_not_found (find_if (has_vm_id i) vms)

-- `ORDER BY worker_id, state_since`.
abbrev by_worker : Vm → Vm → Bool
by_worker a b =
    text_lt a.worker_id b.worker_id
    || (text_eq a.worker_id b.worker_id && ltb a.state_since b.state_since)

unfoldable pub list_all_vms : List Vm → List Vm
list_all_vms vms = order_by by_worker vms

unfoldable pub update_heartbeat : ℕ → Text → Db → Db
update_heartbeat now i db = record db {
  workers =
      update_where (λ w. text_eq w.id i)
        (λ w. record w { last_heartbeat = some now; status = active }) db.workers;
}

unfoldable pub set_worker_offline : Text → Db → Db
set_worker_offline i db = record db {
  workers = update_where (λ w. text_eq w.id i) (λ w. record w { status = offline }) db.workers;
}

unfoldable pub list_workers : Db → List Worker
list_workers db = order_by (λ a b. text_lt a.hostname b.hostname) db.workers

abbrev pub put_worker : ℕ → Worker → Worker → Worker
put_worker now w x = record x {
  hostname = w.hostname;
  cpu_cores = w.cpu_cores;
  memory_bytes = w.memory_bytes;
  tart_version = w.tart_version;
  worker_version = w.worker_version;
  status = active;
  last_heartbeat = some now;
}

-- A row that is new has no heartbeat and no token.
abbrev pub enrolled : ℕ → Worker → Worker
enrolled now w = record w {
  status = active;
  registered_at = now;
  last_heartbeat = none;
  auth_token_hash = none;
  auth_token_last_used_at = none;
  auth_token_revoked_at = none;
}

-- `ON CONFLICT (id)`; a hardware UUID that another row has is refused.
unfoldable pub upsert_worker : ℕ → Worker → Db → Result Db
upsert_worker now w db =
    if any_of (λ x. text_eq x.id w.id) db.workers
    then ok (record db {
      workers = update_where (λ x. text_eq x.id w.id) (put_worker now w) db.workers;
    })
    else if any_of (λ x. text_eq x.hardware_uuid w.hardware_uuid) db.workers
    then err failure
    else ok (record db { workers = db.workers ++ enrolled now w ∷ [] })
