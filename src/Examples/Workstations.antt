-- ===== src/Examples/Workstations.antt =====
-- One member, two workers and one workstation.
use mini_control_public.Prelude.{ℕ, ◌≡◌, refl, List, [], ◌∷◌, none, some, All, Any}
use mini_control_public.Text.{Text, codes, text_eq}
use mini_control_public.Model.{
  Worker, active, Member, member, Workstation, PowerState, DesiredPowerState,
}
use mini_control_public.Db.{Db, after}
use mini_control_public.Slots.{
  Candidate, chosen, Allocated, occupied, slots_of, list_allocated_slots, candidate,
  select_workstation_candidate,
}
use mini_control_public.Slots.Balance.{StandsFor, NoLighter, select-balanced}
use mini_control_public.Slots.Allocation.{is_held, occupied-list_allocated_slots}
use mini_control_public.Workstations.{
  ensure_workstation_running_by_id_for_member, get_workstation_by_id_for_member, parse_desired,
}
use mini_control_public.Workstations.Visit.{visited, view-visit}
use mini_control_public.Power.{
  Report, update_workstation_desired_power_state_by_id, update_workstation_status,
}
use mini_control_public.Power.Effects.{wished, view-wish, view-report}
use mini_control_public.Claim.{claim_workstation, generate_workstation_vm_name}
use mini_control_public.Claim.Outcome.{Claimed, claim-Claimed}
use mini_control_public.Traffic.{Request, claims, visits, wishes, step, run}
use mini_control_public.Traffic.View.{view}
use mini_control_public.Traffic.Row.{Move, step-Move}
use mini_control_public.Traffic.Released.{Departs, run-released}

abbrev pub mini : Text → ℕ → Worker
mini id pool_size = record {
  id = id;
  hostname = id;
  hardware_uuid = id;
  cpu_cores = 10;
  memory_bytes = 34_359_738_368;
  tart_version = codes "2";
  worker_version = codes "1";
  pool_size = pool_size;
  base_image = codes "base";
  status = active;
  registered_at = 0;
  last_heartbeat = some 40_000_000_000;
  auth_token_hash = none;
  auth_token_last_used_at = none;
  auth_token_revoked_at = none;
}

abbrev pub ann : Member
ann = record {
  id = codes "m";
  access_sub = codes "s";
  email = codes "ann@x.org";
  display_name = codes "ann";
  role = member;
  created_at = 0;
  updated_at = 0;
  last_seen_at = 0;
}

abbrev pub desk : PowerState → DesiredPowerState → Workstation
desk p d = record {
  id = codes "d";
  member_id = codes "m";
  worker_id = codes "b";
  slot = 0;
  vm_name = codes "ws-d";
  power_state = p;
  desired_power_state = d;
  ip_address = [];
  last_error = [];
  created_at = 1;
  updated_at = 1;
}

abbrev pub office : PowerState → DesiredPowerState → Db
office p d = record {
  members = ann ∷ [];
  workers = mini (codes "a") 2 ∷ mini (codes "b") 2 ∷ [];
  workstations = desk p d ∷ [];
}

abbrev pub quiet : Db
quiet = office PowerState.stopped DesiredPowerState.stopped

abbrev leaving : Db
leaving = office PowerState.deleting DesiredPowerState.deleted

abbrev machines : List Worker
machines = quiet.workers

abbrev taken : Allocated
taken = (codes "b", 0 ∷ []) ∷ []

-- `TestSelectWorkstationCandidate_PrefersLeastLoadedWorker`.
prefers_least_loaded :
    select_workstation_candidate machines taken []
    ≡ chosen (record { worker_id = codes "a"; slot = 0; count = 0 })
unfolding select_workstation_candidate candidate slots_of text_eq
prefers_least_loaded = refl

-- `TestSelectWorkstationCandidate_UsesRequestedWorkerWhenAvailable`.
uses_requested_worker :
    select_workstation_candidate machines taken (codes "b")
    ≡ chosen (record { worker_id = codes "b"; slot = 1; count = 1 })
unfolding select_workstation_candidate candidate slots_of text_eq
uses_requested_worker = refl

select-balanced_example :
    let b : Candidate = record { worker_id = codes "a"; slot = 0; count = 0 } in
    Any (StandsFor taken b) machines × All (NoLighter taken b) machines
select-balanced_example = select-balanced machines taken _ prefers_least_loaded

occupied-list_allocated_slots_example :
    occupied (slots_of (codes "b") (list_allocated_slots quiet.workstations)) 0
    ≡ is_held (codes "b") 0 quiet.workstations
occupied-list_allocated_slots_example =
    occupied-list_allocated_slots (codes "b") 0 quiet.workstations

claim-Claimed_example :
    Claimed 50_000_000_000 50_000_000_000
      (codes "e")
      (codes "m")
      []
      quiet
      (claim_workstation 50_000_000_000 50_000_000_000 (codes "e") (codes "m") [] quiet)
unfolding text_eq generate_workstation_vm_name
claim-Claimed_example =
    claim-Claimed 50_000_000_000 50_000_000_000 (codes "e") (codes "m") [] quiet ((refl, refl), tt)
      refl

view-visit_example :
    view
      (after quiet (ensure_workstation_running_by_id_for_member 9 (codes "m") (codes "d") quiet))
      (codes "d")
    ≡ some (visited 9 (desk PowerState.stopped DesiredPowerState.stopped))
unfolding text_eq get_workstation_by_id_for_member
view-visit_example =
    view-visit 9 (codes "m") (codes "d") (codes "d") quiet
      (desk PowerState.stopped DesiredPowerState.stopped) (tt, tt) refl

view-wish_example :
    view
      (after quiet (
        update_workstation_desired_power_state_by_id 9
          (codes "m")
          (codes "d")
          (codes "deleted")
          quiet))
      (codes "d")
    ≡ some (
        wished 9
          (parse_desired (codes "deleted"))
          (desk PowerState.stopped DesiredPowerState.stopped))
unfolding text_eq get_workstation_by_id_for_member
view-wish_example =
    view-wish 9 (codes "m") (codes "d") (codes "d") (codes "deleted") quiet
      (desk PowerState.stopped DesiredPowerState.stopped) (tt, tt) refl

abbrev gone_report : Report
gone_report = record {
  workstation_id = codes "d";
  power_state = codes "deleted";
  ip_address = [];
  last_error = [];
}

view-report_example :
    view (after leaving (update_workstation_status 9 (codes "b") gone_report leaving)) (codes "d")
    ≡ none
unfolding text_eq
view-report_example =
    view-report 9 (codes "b") gone_report (codes "d") leaving
      (desk PowerState.deleting DesiredPowerState.deleted) (tt, tt) refl refl

step-Move_example :
    Move 9
      (visits (codes "m") (codes "d"))
      (desk PowerState.stopped DesiredPowerState.stopped)
      (view (step quiet (9, visits (codes "m") (codes "d"))) (codes "d"))
unfolding text_eq
step-Move_example =
    step-Move 9 quiet (codes "d") (desk PowerState.stopped DesiredPowerState.stopped) (tt, tt) refl
      (visits (codes "m") (codes "d"))

abbrev afternoon : List (ℕ × Request)
afternoon =
    (50_000_000_000, claims 50_000_000_000 (codes "e") (codes "m") [])
    ∷ (51_000_000_000, visits (codes "m") (codes "d"))
    ∷ (52_000_000_000, wishes (codes "m") (codes "d") (codes "running"))
    ∷ []

run-released_example :
    Departs
      (desk PowerState.deleting DesiredPowerState.deleted)
      (view (run leaving afternoon) (codes "d"))
unfolding text_eq
run-released_example =
    run-released (codes "d") afternoon leaving (desk PowerState.deleting DesiredPowerState.deleted)
      (tt, tt) (refl, (refl, (refl, tt))) refl (refl, refl)
