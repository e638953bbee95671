-- ===== src/Traffic.antt =====
-- The calls of server/internal/db/workstations.go that write, as one step of a history: a member
-- claims, visits or wishes, and a worker reports. Each runs in a transaction of its own, and the
-- row locks and the allocation lock run those on one row, and all claims, one after the other.
pub mod View
pub mod Statement
pub mod Row
pub mod Released
use mini_control_public.Prelude.{ℕ, List, [], ◌∷◌, Bool}
use mini_control_public.Text.{Text}
use mini_control_public.Db.{Db, after}
use mini_control_public.Workstations.{ensure_workstation_running_by_id_for_member}
use mini_control_public.Power.{
  Report, update_workstation_desired_power_state_by_id, update_workstation_status,
}
use mini_control_public.Claim.{claim_workstation}

pub data Request : Type 0 where
  -- the server's clock, the new ID, the member and the preferred worker
  claims : ℕ → Text → Text → Text → Request
  -- the member and the workstation
  visits : Text → Text → Request
  -- the member, the workstation and the label of the desired state
  wishes : Text → Text → Text → Request
  -- the worker and its report
  reports : Text → Report → Request

-- One call, at the database's time `now`.
unfoldable pub step : Db → ℕ × Request → Db
unfolding claim_workstation ensure_workstation_running_by_id_for_member
    update_workstation_desired_power_state_by_id update_workstation_status
step db (now, claims server_now uuid m preferred) =
    after db (claim_workstation now server_now uuid m preferred db)
step db (now, visits m i) = after db (ensure_workstation_running_by_id_for_member now m i db)
step db (now, wishes m i desired) =
    after db (update_workstation_desired_power_state_by_id now m i desired db)
step db (now, reports worker r) = after db (update_workstation_status now worker r db)

unfoldable pub run : Db → List (ℕ × Request) → Db
run db [] = db
run db (r ∷ rs) = run (step db r) rs
