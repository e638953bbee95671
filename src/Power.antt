-- ===== src/Power.antt =====
-- server/internal/db/workstations.go: `UpdateWorkstationDesiredPowerState(ByID)`, a member's wish
-- for a workstation, and `UpdateWorkstationStatus`, a worker's report on one.
pub mod Effects
use mini_control_public.Prelude.{
  delete_where, ℕ, ◌≡◌, refl, Bool, true, false, ◌&&◌, not, List, [], ◌∷◌, Option, none, some,
  find_if, if◌then◌else◌,
}
use mini_control_public.Text.{Text, codes, text_eq, trim_space}
use mini_control_public.Model.{Workstation, PowerState, DesiredPowerState}
use mini_control_public.Db.{
  Db, Error, not_found, workstation_being_deleted, wrong_worker, unsupported, failure, Result, ok,
  err, ◌>>=◌,
}
use mini_control_public.Workstations.{
  has_id, is_of, set_rows, parse_power_state, parse_desired, get_workstation_by_id_for_member,
  get_workstation_by_member_id,
}

-- `nextPowerState`.
unfoldable pub next_power_state : DesiredPowerState → PowerState → PowerState
next_power_state DesiredPowerState.running PowerState.stopped = PowerState.starting
next_power_state DesiredPowerState.running PowerState.error = PowerState.starting
next_power_state DesiredPowerState.running p = p
next_power_state DesiredPowerState.stopped PowerState.starting = PowerState.stopping
next_power_state DesiredPowerState.stopped PowerState.running = PowerState.stopping
next_power_state DesiredPowerState.stopped p = p
next_power_state DesiredPowerState.deleted p = PowerState.deleting

abbrev pub being_deleted : PowerState → Bool
being_deleted PowerState.deleting = true
being_deleted PowerState.deleted = true
being_deleted p = false

abbrev pub wish : ℕ → DesiredPowerState → Workstation → Workstation → Workstation
wish now desired read w = record w {
  desired_power_state = desired;
  power_state = next_power_state desired read.power_state;
  updated_at = now;
}

-- The `switch desired` and the update behind it.
unfoldable pub grant_wish :
    ℕ → Text → Text → Option DesiredPowerState → Workstation → Db → Result (Workstation × Db)
unfolding next_power_state
grant_wish now m i none w db = err unsupported
grant_wish now m i (some desired) w db =
    ok (wish now desired w w, set_rows (is_of m i) (wish now desired w) db)

unfoldable pub update_workstation_desired_power_state_by_id :
    ℕ → Text → Text → Text → Db → Result (Workstation × Db)
unfolding get_workstation_by_id_for_member grant_wish
update_workstation_desired_power_state_by_id now m i desired db = do
  w ← get_workstation_by_id_for_member db m i
  if being_deleted w.power_state
      then err workstation_being_deleted
      else grant_wish now m i (parse_desired desired) w db

unfoldable pub update_workstation_desired_power_state :
    ℕ → Text → Text → Db → Result (Workstation × Db)
unfolding update_workstation_desired_power_state_by_id get_workstation_by_member_id
update_workstation_desired_power_state now m desired db = do
  w ← get_workstation_by_member_id db m
  update_workstation_desired_power_state_by_id now m w.id desired db

-- The label of the report stays a text until Postgres reads it.
pub record Report : Type 0 where
  pub workstation_id : Text
  pub power_state : Text
  pub ip_address : Text
  pub last_error : Text

abbrev pub wants_deleted : DesiredPowerState → Bool
wants_deleted DesiredPowerState.deleted = true
wants_deleted d = false

abbrev pub note_error : ℕ → Report → Workstation → Workstation
note_error now r w = record w { last_error = trim_space r.last_error; updated_at = now }

abbrev pub apply_report : ℕ → Report → PowerState → Workstation → Workstation
apply_report now r p w = record w {
  power_state = p;
  ip_address = trim_space r.ip_address;
  last_error = trim_space r.last_error;
  updated_at = now;
}

-- `UPDATE workstations SET power_state = $2, …`: the label must be of the enum.
unfoldable pub set_status :
    ℕ → Report → Workstation → Option PowerState → Db → Result (Unit {0} × Db)
set_status now r w none db = err failure
set_status now r w (some p) db = ok (tt, set_rows (has_id w.id) (apply_report now r p) db)

-- A report on a row that was read.
unfoldable pub report_on : ℕ → Report → Workstation → Db → Result (Unit {0} × Db)
unfolding set_status
report_on now r w db =
    if text_eq r.power_state (codes "deleted") && wants_deleted w.desired_power_state
    then ok (tt, record db { workstations = delete_where (has_id w.id) db.workstations })
    else if wants_deleted w.desired_power_state
    then ok (tt, set_rows (has_id w.id) (note_error now r) db)
    else set_status now r w (parse_power_state r.power_state) db

unfoldable pub update_workstation_status : ℕ → Text → Report → Db → Result (Unit {0} × Db)
unfolding report_on
update_workstation_status now worker r db =
    elim (find_if (has_id r.workstation_id) db.workstations) [
      | none ↦ ok (tt, db)
      | some w ↦ if text_eq w.worker_id worker then report_on now r w db else err wrong_worker
    ]
