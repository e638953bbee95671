-- ===== src/Power/Effects.antt =====
-- What a member's wish and a worker's report do to the map of rows.
use mini_control_public.Prelude.{
  find_if-passes, ℕ, ◌≡◌, ◌∙◌, ap, refl, true, false, Option, none, some, arith, find_if,
  if◌then◌else◌, inl, inr, Bool-cases,
}
use mini_control_public.Text.{Text, codes, text_eq, text_eq_iff, trim_space}
use mini_control_public.Model.{Workstation, PowerState, DesiredPowerState}
use mini_control_public.Db.{Db, after, ok}
use mini_control_public.Traffic.View.{
  view, UniqueIds, found-view, view-set_by_id, view-set_by_owner, view-same, view-delete_where,
}
use mini_control_public.Workstations.{
  has_id, is_of, parse_desired, parse_power_state, get_workstation_by_id_for_member,
}
use mini_control_public.Workstations.Visit.{find_if-of-get}
use mini_control_public.Power.{
  being_deleted, next_power_state, wish, grant_wish, update_workstation_desired_power_state_by_id,
  Report, wants_deleted, note_error, apply_report, report_on, update_workstation_status,
}

-- The power state after a wish, by the one before; none where the row is being deleted or gone.
abbrev pub successor : PowerState → DesiredPowerState → Option PowerState
successor PowerState.deleting d = none
successor PowerState.deleted d = none
successor p DesiredPowerState.deleted = some PowerState.deleting
successor PowerState.stopped DesiredPowerState.running = some PowerState.starting
successor PowerState.error DesiredPowerState.running = some PowerState.starting
successor PowerState.starting DesiredPowerState.stopped = some PowerState.stopping
successor PowerState.running DesiredPowerState.stopped = some PowerState.stopping
successor p d = some p

-- The row that takes a desired state and a power state, if there is one.
abbrev pub taking : ℕ → DesiredPowerState → Option PowerState → Workstation → Workstation
taking now d none v = v
taking now d (some p) v = record v { desired_power_state = d; power_state = p; updated_at = now }

-- The row after a wish that names a state: untouched while it is being deleted.
abbrev pub wished : ℕ → Option DesiredPowerState → Workstation → Workstation
wished now none v = v
wished now (some d) v = taking now d (successor v.power_state d) v

successor-leaving :
    (p : PowerState) (d : DesiredPowerState) → being_deleted p ≡ true → successor p d ≡ none
successor-leaving PowerState.deleting d e = refl
successor-leaving PowerState.deleted d e = refl
successor-leaving p d e = cc e

successor-next :
    (p : PowerState) (d : DesiredPowerState)
    → being_deleted p ≡ false
    → successor p d ≡ some (next_power_state d p)
unfolding next_power_state
successor-next PowerState.starting DesiredPowerState.running e = refl
successor-next PowerState.starting DesiredPowerState.stopped e = refl
successor-next PowerState.starting DesiredPowerState.deleted e = refl
successor-next PowerState.running DesiredPowerState.running e = refl
successor-next PowerState.running DesiredPowerState.stopped e = refl
successor-next PowerState.running DesiredPowerState.deleted e = refl
successor-next PowerState.stopping DesiredPowerState.running e = refl
successor-next PowerState.stopping DesiredPowerState.stopped e = refl
successor-next PowerState.stopping DesiredPowerState.deleted e = refl
successor-next PowerState.stopped DesiredPowerState.running e = refl
successor-next PowerState.stopped DesiredPowerState.stopped e = refl
successor-next PowerState.stopped DesiredPowerState.deleted e = refl
successor-next PowerState.error DesiredPowerState.running e = refl
successor-next PowerState.error DesiredPowerState.stopped e = refl
successor-next PowerState.error DesiredPowerState.deleted e = refl
successor-next PowerState.deleting d e = cc e
successor-next PowerState.deleted d e = cc e

wished-leaving :
    (now : ℕ) (o : Option DesiredPowerState) (v : Workstation)
    → being_deleted v.power_state ≡ true
    → wished now o v ≡ v
wished-leaving now none v h = refl
wished-leaving now (some d) v h = ap (λ o. taking now d o v) (successor-leaving v.power_state d h)

grant-view :
    (now : ℕ) (m j i : Text) (o : Option DesiredPowerState) (db : Db) (v : Workstation)
    → find_if (has_id v.id) db.workstations ≡ some v
    → is_of m j v ≡ true
    → being_deleted v.power_state ≡ false
    → view (after db (grant_wish now m j o v db)) i
      ≡ (if text_eq v.id i then some (wished now o v) else view db i)
unfolding grant_wish
grant-view now m j i none db v e hit up = view-same db v i e
grant-view now m j i (some d) db v e hit up =
    rw (successor-next v.power_state d up)
      (view-set_by_owner (wish now d v) db v i (λ w. refl) m j e hit)

-- Where workstation IDs are unique, a wish of a member for a workstation of theirs changes the map
-- of rows at that workstation alone: a label that names no state, or a row that is being deleted,
-- leaves the row as it was; else it takes the desired state and the power state that follows.
pub view-wish :
    (now : ℕ) (m j i desired : Text) (db : Db) (v : Workstation)
    → UniqueIds db.workstations
    → get_workstation_by_id_for_member db m j ≡ ok v
    → view (after db (update_workstation_desired_power_state_by_id now m j desired db)) i
      ≡ (if text_eq v.id i then some (wished now (parse_desired desired) v) else view db i)
unfolding update_workstation_desired_power_state_by_id
view-wish now m j i desired db v u e = elim (Bool-cases (being_deleted v.power_state)) [
  | inl leaving ↦ rw e (
      rw leaving (
        rw (wished-leaving now (parse_desired desired) v leaving)
          (view-same db v i (found-view _ _ v u (find_if-of-get m j db v e)))))
  | inr up ↦ rw e (
      rw up (
        grant-view now m j i (parse_desired desired) db v
          (found-view _ _ v u (find_if-of-get m j db v e))
          (find_if-passes (is_of m j) db.workstations v (find_if-of-get m j db v e)) up))
]

-- The row after a report of its worker: a row that is wanted deleted goes when the worker says
-- that it is deleted, and else only notes the error; any other takes what a valid report says.
abbrev pub reported_as :
    DesiredPowerState → ℕ → Report → Option PowerState → Workstation → Option Workstation
reported_as DesiredPowerState.deleted now r o v =
    if text_eq r.power_state (codes "deleted")
    then none
    else some (record v { last_error = trim_space r.last_error; updated_at = now })
reported_as d now r none v = some v
reported_as d now r (some p) v = some (record v {
  power_state = p;
  ip_address = trim_space r.ip_address;
  last_error = trim_space r.last_error;
  updated_at = now;
})

abbrev pub reported : ℕ → Report → Option PowerState → Workstation → Option Workstation
reported now r o v = reported_as v.desired_power_state now r o v

-- The same by the tests of the code.
abbrev report_row : ℕ → Report → Option PowerState → Workstation → Option Workstation
report_row now r o v =
    if wants_deleted v.desired_power_state
    then (if text_eq r.power_state (codes "deleted") then none else some (note_error now r v))
    else elim o [ none ↦ some v | some p ↦ some (apply_report now r p v) ]

report_row-as :
    (d : DesiredPowerState) (now : ℕ) (r : Report) (o : Option PowerState) (v : Workstation)
    → (if wants_deleted d
        then (if text_eq r.power_state (codes "deleted") then none else some (note_error now r v))
        else elim o [ none ↦ some v | some p ↦ some (apply_report now r p v) ])
      ≡ reported_as d now r o v
report_row-as DesiredPowerState.deleted now r o v = refl
report_row-as DesiredPowerState.running now r none v = refl
report_row-as DesiredPowerState.running now r (some p) v = refl
report_row-as DesiredPowerState.stopped now r none v = refl
report_row-as DesiredPowerState.stopped now r (some p) v = refl

report-view :
    (now : ℕ) (r : Report) (i : Text) (db : Db) (v : Workstation) (o : Option PowerState)
    → find_if (has_id v.id) db.workstations ≡ some v
    → parse_power_state r.power_state ≡ o
    → view (after db (report_on now r v db)) i
      ≡ (if text_eq v.id i then report_row now r o v else view db i)
unfolding report_on
report-view now r i db v none e eo = ground (
  arith,
  view-same db v i e,
  view-delete_where db v.id i,
  view-set_by_id (note_error now r) db v i (λ w. refl) e,
)
report-view now r i db v (some p) e eo = ground (
  arith,
  view-same db v i e,
  view-delete_where db v.id i,
  view-set_by_id (note_error now r) db v i (λ w. refl) e,
  view-set_by_id (apply_report now r p) db v i (λ w. refl) e,
)

-- Where workstation IDs are unique, a report of a worker on a workstation of its own changes the
-- map of rows at that workstation alone: a row that is wanted deleted is removed when the report
-- says `deleted` and else notes the error only; any other takes what a valid report says.
pub view-report :
    (now : ℕ) (worker : Text) (r : Report) (i : Text) (db : Db) (v : Workstation)
    → UniqueIds db.workstations
    → view db r.workstation_id ≡ some v
    → v.worker_id ≡ worker
    → view (after db (update_workstation_status now worker r db)) i
      ≡ (if text_eq v.id i then reported now r (parse_power_state r.power_state) v else view db i)
unfolding update_workstation_status
view-report now worker r i db v u e own =
    rw (e, update_workstation_status, (text_eq_iff v.worker_id worker).1 own)
      (report-view now r i db v (parse_power_state r.power_state) (found-view _ _ v u e) refl
        ∙ ap (λ x. if text_eq v.id i then x else view db i)
            (report_row-as v.desired_power_state now r (parse_power_state r.power_state) v))
