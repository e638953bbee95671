-- ===== src/Workstations.antt =====
-- The operations of server/internal/db/workstations.go on workstations that are there: the
-- lookups, and the three that change a row (a member's visit, a member's wish, a worker's report).
-- `now` is the database's `now()`.
pub mod Visit
use mini_control_public.Prelude.{
  update_where, delete_where, ℕ, ◌≡◌, refl, Bool, true, false, ◌&&◌, ◌||◌, not, List, [], ◌∷◌,
  Option, none, some, length, find_if, keep_if, order_by, ltb, ◌==◌, if◌then◌else◌, map,
}
use mini_control_public.Text.{Text, codes, text_eq, text_lt, trim_space}
use mini_control_public.Model.{Workstation, PowerState, DesiredPowerState}
use mini_control_public.Model
use mini_control_public.Db.{
  Db, Error, not_found, workstation_being_deleted, wrong_worker, unsupported, failure, Result, ok,
  err, ◌>>=◌, ◌>>◌, guard, or_not_found,
}

-- Postgres reads a label of the enum `workstation_power_state`.
unfoldable pub parse_power_state : Text → Option PowerState
parse_power_state t =
    if text_eq t (codes "starting")
    then some PowerState.starting
    else if text_eq t (codes "running")
    then some PowerState.running
    else if text_eq t (codes "stopping")
    then some PowerState.stopping
    else if text_eq t (codes "stopped")
    then some PowerState.stopped
    else if text_eq t (codes "deleting")
    then some PowerState.deleting
    else if text_eq t (codes "deleted")
    then some PowerState.deleted
    else if text_eq t (codes "error")
    then some PowerState.error
    else none

-- The cases of `switch desired`; `none` is its default.
unfoldable pub parse_desired : Text → Option DesiredPowerState
parse_desired t =
    if text_eq t (codes "running")
    then some DesiredPowerState.running
    else if text_eq t (codes "stopped")
    then some DesiredPowerState.stopped
    else if text_eq t (codes "deleted")
    then some DesiredPowerState.deleted
    else none

abbrev pub has_id : Text → Workstation → Bool
has_id i w = text_eq w.id i

abbrev pub is_of_member : Text → Workstation → Bool
is_of_member m w = text_eq w.member_id m

-- `WHERE member_id = $1 AND id = $2`.
abbrev pub is_of : Text → Text → Workstation → Bool
is_of m i w = is_of_member m w && has_id i w

unfoldable pub get_workstation_by_id : Db → Text → Result Workstation
get_workstation_by_id db i = or_not_found (find_if (has_id i) db.workstations)

unfoldable pub get_workstation_by_id_for_member : Db → Text → Text → Result Workstation
get_workstation_by_id_for_member db m i = or_not_found (find_if (is_of m i) db.workstations)

unfoldable pub get_workstation_by_member_and_worker_id : Db → Text → Text → Result Workstation
get_workstation_by_member_and_worker_id db m worker =
    or_not_found (find_if (λ w. is_of_member m w && text_eq w.worker_id worker) db.workstations)

-- `ORDER BY updated_at DESC, created_at DESC`.
abbrev newest_first : Workstation → Workstation → Bool
newest_first a b =
    ltb b.updated_at a.updated_at || (a.updated_at == b.updated_at && ltb b.created_at a.created_at)

abbrev first_row {ℓ} : {A : Type ℓ} → List A → Option A
first_row [] = none
first_row (x ∷ xs) = some x

unfoldable pub get_workstation_by_member_id : Db → Text → Result Workstation
get_workstation_by_member_id db m =
    or_not_found (first_row (order_by newest_first (keep_if (is_of_member m) db.workstations)))

-- `ORDER BY worker_id, slot`, and `created_at` behind it where `dated`.
abbrev pub by_slot : Bool → Workstation → Workstation → Bool
by_slot dated a b =
    text_lt a.worker_id b.worker_id
    || (text_eq a.worker_id b.worker_id
        && (ltb a.slot b.slot || (a.slot == b.slot && (dated && ltb a.created_at b.created_at))))

unfoldable pub list_workstations_by_member_id : Db → Text → List Workstation
list_workstations_by_member_id db m =
    order_by (by_slot true) (keep_if (is_of_member m) db.workstations)

unfoldable pub list_all_workstations : Db → List Workstation
list_all_workstations db = order_by (by_slot false) db.workstations

pub record DesiredWorkstation : Type 0 where
  pub id : Text
  pub vm_name : Text
  pub slot : ℕ
  pub desired_power_state : DesiredPowerState

abbrev desired_of : Workstation → DesiredWorkstation
desired_of w = record {
  id = w.id;
  vm_name = w.vm_name;
  slot = w.slot;
  desired_power_state = w.desired_power_state;
}

unfoldable pub list_desired_workstations_by_worker : Db → Text → List DesiredWorkstation
list_desired_workstations_by_worker db worker = map desired_of (
    order_by (λ a b. ltb a.slot b.slot) (keep_if (λ w. text_eq w.worker_id worker) db.workstations))

-- The tables after `UPDATE workstations SET f WHERE p`.
abbrev pub set_rows : (Workstation → Bool) → (Workstation → Workstation) → Db → Db
set_rows p f db = record db { workstations = update_where p f db.workstations }

-- `power_state = CASE WHEN power_state IN ('stopped', 'error') THEN 'starting' ELSE power_state`.
abbrev restarted : PowerState → PowerState
restarted PowerState.stopped = PowerState.starting
restarted PowerState.error = PowerState.starting
restarted p = p

abbrev pub revive : ℕ → Workstation → Workstation
revive now w = record w {
  desired_power_state = DesiredPowerState.running;
  power_state = restarted w.power_state;
  last_error = [];
  updated_at = now;
}

abbrev pub want_running : ℕ → Workstation → Workstation
want_running now w = record w { desired_power_state = DesiredPowerState.running; updated_at = now }

-- `UPDATE … WHERE id = $1 RETURNING …`, for the row that was read.
abbrev update_returning :
    (Workstation → Bool)
    → (Workstation → Workstation)
    → Workstation
    → Db
    → Result (Workstation × Db)
update_returning p f w db = ok (f w, set_rows p f db)

-- `claimExistingWorkstation`: the outer test of the power state, and the inner one of the desired.
unfoldable pub claim_running : DesiredPowerState → ℕ → Workstation → Db → Result (Workstation × Db)
claim_running DesiredPowerState.running now w db = ok (w, db)
claim_running d now w db = update_returning (has_id w.id) (want_running now) w db

unfoldable pub claim_in : PowerState → ℕ → Workstation → Db → Result (Workstation × Db)
unfolding claim_running
claim_in PowerState.deleting now w db = err workstation_being_deleted
claim_in PowerState.deleted now w db = err workstation_being_deleted
claim_in PowerState.stopped now w db = update_returning (has_id w.id) (revive now) w db
claim_in PowerState.error now w db = update_returning (has_id w.id) (revive now) w db
claim_in PowerState.stopping now w db = update_returning (has_id w.id) (revive now) w db
claim_in p now w db = claim_running w.desired_power_state now w db

unfoldable pub claim_existing_workstation : ℕ → Workstation → Db → Result (Workstation × Db)
unfolding claim_in
claim_existing_workstation now w db = claim_in w.power_state now w db

-- The `switch` of `EnsureWorkstationRunningByIDForMember`.
unfoldable pub ensure_row :
    DesiredPowerState → PowerState → ℕ → Workstation → Db → Result (Workstation × Db)
unfolding claim_existing_workstation
ensure_row DesiredPowerState.deleted p now w db = ok (w, db)
ensure_row d PowerState.deleting now w db = ok (w, db)
ensure_row d PowerState.deleted now w db = ok (w, db)
ensure_row d p now w db = claim_existing_workstation now w db

unfoldable pub ensure_workstation_running_by_id_for_member :
    ℕ → Text → Text → Db → Result (Workstation × Db)
unfolding ensure_row get_workstation_by_id_for_member
ensure_workstation_running_by_id_for_member now m i db = do
  w ← get_workstation_by_id_for_member db m i
  ensure_row w.desired_power_state w.power_state now w db

unfoldable pub ensure_workstation_running_by_member_id : ℕ → Text → Db → Result (Workstation × Db)
unfolding ensure_workstation_running_by_id_for_member get_workstation_by_member_id
ensure_workstation_running_by_member_id now m db = do
  w ← get_workstation_by_member_id db m
  ensure_workstation_running_by_id_for_member now m w.id db
