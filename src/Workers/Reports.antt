-- ===== src/Workers/Reports.antt =====
-- What the reports of a worker do to the table.
use mini_control_public.Prelude.{ℕ, ◌≡◌, ◌≢◌, List, [], ◌∷◌, some, Bool-cases, inl, inr}
use mini_control_public.Text.{Text, text_eq}
use mini_control_public.Model.{Workstation}
use mini_control_public.Db.{Db}
use mini_control_public.Http.{body}
use mini_control_public.Power.{Report}
use mini_control_public.Vms.{update_heartbeat}
use mini_control_public.Traffic.{reports, step}
use mini_control_public.Traffic.View.{view, UniqueIds}
use mini_control_public.Traffic.Row.{Move, step-Move}
use mini_control_public.Traffic.Statement.{step-UniqueIds}
use mini_control_public.Workers.{report_all, heartbeat, handle_worker_heartbeat}

-- A report of one worker leaves the row of another's workstation alone.
step-foreign :
    (now : ℕ) (worker_id i : Text) (r : Report) (db : Db) (v : Workstation)
    → UniqueIds db.workstations
    → view db i ≡ some v
    → v.worker_id ≢ worker_id
    → view (step db (now, reports worker_id r)) i ≡ some v
step-foreign now worker_id i r db v u e foreign =
    go (step-Move now db i v u e (reports worker_id r))
  where
    go :
        Move now (reports worker_id r) v (view (step db (now, reports worker_id r)) i)
        → view (step db (now, reports worker_id r)) i ≡ some v
    go (Move.keep k) = k
    go (Move.visit q k) = cc q
    go (Move.wish d q k) = cc q
    go (Move.report s q same k) = absurd (foreign (cc q))

run-foreign :
    (now : ℕ) (worker_id i : Text) (rs : List Report) (db : Db) (v : Workstation)
    → UniqueIds db.workstations
    → view db i ≡ some v
    → v.worker_id ≢ worker_id
    → view (report_all now worker_id rs db) i ≡ some v
unfolding report_all step
run-foreign now worker_id i [] db v u e foreign = e
run-foreign now worker_id i (r ∷ rs) db v u e foreign =
    let db' = step db (now, reports worker_id r) in
    run-foreign now worker_id i rs db' v (step-UniqueIds db now (reports worker_id r) u)
      (step-foreign now worker_id i r db v u e foreign) foreign

-- Where workstation IDs are unique, whatever the reports of a heartbeat say, the workstations of the
-- other workers keep their rows.
pub heartbeat-foreign :
    (now : ℕ) (worker_id path_id i : Text) (rs : List Report) (db : Db) (v : Workstation)
    → UniqueIds db.workstations
    → view db i ≡ some v
    → v.worker_id ≢ worker_id
    → view (handle_worker_heartbeat now (some worker_id) path_id (body rs) db).1 i ≡ some v
unfolding handle_worker_heartbeat heartbeat update_heartbeat
heartbeat-foreign now worker_id path_id i rs db v u e foreign =
    elim (Bool-cases (text_eq path_id worker_id)) [
      | inl same ↦
          rw same (run-foreign now worker_id i rs (update_heartbeat now worker_id db) v u e foreign)
      | inr other ↦ rw other e
    ]
