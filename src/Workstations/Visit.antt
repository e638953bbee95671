-- ===== src/Workstations/Visit.antt =====
-- What a member's visit (`EnsureWorkstationRunningByIDForMember`) does to the map of rows.
use mini_control_public.Prelude.{ℕ, ◌≡◌, refl, [], some, arith, find_if, if◌then◌else◌}
use mini_control_public.Text.{Text, text_eq}
use mini_control_public.Model.{Workstation, PowerState, DesiredPowerState}
use mini_control_public.Db.{Db, after, ok}
use mini_control_public.Traffic.View.{view, UniqueIds, found-view, view-set_by_id, view-same}
use mini_control_public.Workstations.{
  has_id, is_of, revive, want_running, ensure_row, get_workstation_by_id_for_member,
  ensure_workstation_running_by_id_for_member,
}

-- The row after a visit: untouched if it is on its way out, else wanted running; a machine that is
-- stopped or broken starts, and one that is not up loses its last error.
abbrev visited_as : DesiredPowerState → PowerState → ℕ → Workstation → Workstation
visited_as DesiredPowerState.deleted p now v = v
visited_as d PowerState.deleting now v = v
visited_as d PowerState.deleted now v = v
visited_as d PowerState.stopped now v = record v {
  desired_power_state = DesiredPowerState.running;
  power_state = PowerState.starting;
  last_error = [];
  updated_at = now;
}
visited_as d PowerState.error now v = record v {
  desired_power_state = DesiredPowerState.running;
  power_state = PowerState.starting;
  last_error = [];
  updated_at = now;
}
visited_as d PowerState.stopping now v = record v {
  desired_power_state = DesiredPowerState.running;
  last_error = [];
  updated_at = now;
}
visited_as DesiredPowerState.running p now v = v
visited_as d p now v = record v {
  desired_power_state = DesiredPowerState.running;
  updated_at = now;
}

abbrev pub visited : ℕ → Workstation → Workstation
visited now v = visited_as v.desired_power_state v.power_state now v

visit_row :
    (d : DesiredPowerState) (p : PowerState) (now : ℕ) (v : Workstation) (db : Db) (i : Text)
    → find_if (has_id v.id) db.workstations ≡ some v
    → v.desired_power_state ≡ d
    → v.power_state ≡ p
    → view (after db (ensure_row d p now v db)) i
      ≡ (if text_eq v.id i then some (visited_as d p now v) else view db i)
unfolding ensure_row
visit_row d p now v db i e ed ep = ground (
  arith,
  view-set_by_id (revive now) db v i (λ w. refl) e,
  view-set_by_id (want_running now) db v i (λ w. refl) e,
  view-same db v i e,
)

pub find_if-of-get :
    (m j : Text) (db : Db) (v : Workstation)
    → get_workstation_by_id_for_member db m j ≡ ok v
    → find_if (is_of m j) db.workstations ≡ some v
unfolding get_workstation_by_id_for_member
find_if-of-get m j db v e = ground arith

-- Where workstation IDs are unique, a visit of a member to a workstation of theirs changes the map
-- of rows at that workstation alone: it leaves a row that is on its way out as it was, and any
-- other it makes wanted running, starts if it is stopped or broken, and relieves of its last error
-- unless it is starting or running.
pub view-visit :
    (now : ℕ) (m j i : Text) (db : Db) (v : Workstation)
    → UniqueIds db.workstations
    → get_workstation_by_id_for_member db m j ≡ ok v
    → view (after db (ensure_workstation_running_by_id_for_member now m j db)) i
      ≡ (if text_eq v.id i then some (visited now v) else view db i)
unfolding ensure_workstation_running_by_id_for_member get_workstation_by_id_for_member
view-visit now m j i db v u e = rw e (
    visit_row v.desired_power_state v.power_state now v db i
      (found-view _ _ v u (find_if-of-get m j db v e)) refl refl)
