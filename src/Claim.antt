-- ===== src/Claim.antt =====
-- server/internal/db/workstations.go: `ClaimWorkstation` and what it calls. The lock
-- that it takes makes claims run one after the other. `uuid` is the ID that `uuid.NewString`
-- gives, `now` the database's clock and `server_now` the server's.
pub mod Outcome
pub mod Shape
use mini_control_public.Prelude.{
  ℕ, ◌-◌, ◌*◌, ◌≡◌, refl, Bool, true, false, ◌&&◌, ◌||◌, not, List, [], ◌∷◌, ◌++◌, Option, none,
  some, find_if, keep_if, any_of, order_by, take, length, ltb, leb, ◌==◌, if◌then◌else◌,
}
use mini_control_public.Text.{Text, codes, text_eq, text_lt}
use mini_control_public.Model.{
  Worker, WorkerStatus, active, draining, offline, Workstation, PowerState, DesiredPowerState,
}
use mini_control_public.Db.{
  Db, Error, no_active_workers, failure, Result, ok, err, ◌>>=◌, ◌>>◌, guard,
}
use mini_control_public.Db
use mini_control_public.Slots.{
  Candidate, Selected, SelectError, chosen, refused, target_worker_full, target_worker_unavailable,
  no_slots_available, select_workstation_candidate, list_allocated_slots,
}

-- 30 seconds.
abbrev pub schedulable_heartbeat_window : ℕ
schedulable_heartbeat_window = 30_000_000_000

abbrev is_active : WorkerStatus → Bool
is_active active = true
is_active s = false

abbrev seen_since : ℕ → Option ℕ → Bool
seen_since cutoff none = false
seen_since cutoff (some t) = leb cutoff t

-- `WHERE status = 'active' AND last_heartbeat IS NOT NULL AND last_heartbeat >= $1`.
abbrev pub is_schedulable : ℕ → Worker → Bool
is_schedulable cutoff w = is_active w.status && seen_since cutoff w.last_heartbeat

-- `ORDER BY hostname, id`.
abbrev by_hostname : Worker → Worker → Bool
by_hostname a b =
    text_lt a.hostname b.hostname || (text_eq a.hostname b.hostname && text_lt a.id b.id)

unfoldable pub list_schedulable_workers : ℕ → Db → List Worker
list_schedulable_workers cutoff db =
    order_by by_hostname (keep_if (is_schedulable cutoff) db.workers)

abbrev without_dashes : Text → Text
without_dashes [] = []
without_dashes (c ∷ cs) = let rest = without_dashes cs in if c == b'-' then rest else c ∷ rest

unfoldable pub generate_workstation_vm_name : Text → Text
generate_workstation_vm_name id =
    let trimmed = without_dashes id in
    codes "ws-" ++ (if ltb 12 (length trimmed) then take 12 trimmed else trimmed)

-- The row that `INSERT INTO workstations` makes.
abbrev pub new_workstation : ℕ → Text → Text → Text → ℕ → Workstation
new_workstation now uuid m worker slot = record {
  id = uuid;
  member_id = m;
  worker_id = worker;
  slot = slot;
  vm_name = generate_workstation_vm_name uuid;
  power_state = PowerState.starting;
  desired_power_state = DesiredPowerState.running;
  ip_address = [];
  last_error = [];
  created_at = now;
  updated_at = now;
}

-- A row that a unique constraint of the table sets against the new one.
abbrev pub conflicts : Workstation → Workstation → Bool
conflicts n w =
    text_eq w.id n.id
    || text_eq w.vm_name n.vm_name
    || (text_eq w.worker_id n.worker_id && w.slot == n.slot)

-- The constraints of the table: the unique ones, and the two references.
abbrev pub is_insertable : Db → Workstation → Bool
is_insertable db n =
    not (any_of (conflicts n) db.workstations)
    && any_of (λ m. text_eq m.id n.member_id) db.members
    && any_of (λ w. text_eq w.id n.worker_id) db.workers

unfoldable pub insert_workstation : ℕ → Text → Text → Text → ℕ → Db → Result (Workstation × Db)
insert_workstation now uuid m worker slot db = do
  let n = new_workstation now uuid m worker slot
  guard (is_insertable db n) failure
  ok (n, record db { workstations = db.workstations ++ n ∷ [] })

-- The errors of the selection as the errors of the package.
abbrev pub of_select : SelectError → Error
of_select target_worker_full = Db.target_worker_full
of_select target_worker_unavailable = Db.target_worker_unavailable
of_select no_slots_available = Db.no_slots_available

-- The flag `created`, which is true at every success.
abbrev mark_created : Result (Workstation × Db) → Result ((Workstation × Bool) × Db)
mark_created (ok (w, db)) = ok ((w, true), db)
mark_created (err e) = err e

-- `selectWorkstationCandidate` and the insertion.
claim_selected : ℕ → Text → Text → Selected → Db → Result ((Workstation × Bool) × Db)
unfolding insert_workstation
claim_selected now uuid m (refused e) db = err (of_select e)
claim_selected now uuid m (chosen c) db =
    mark_created (insert_workstation now uuid m c.worker_id c.slot db)

-- `len(workers) == 0` comes first.
claim_from : ℕ → Text → Text → Text → List Worker → Db → Result ((Workstation × Bool) × Db)
unfolding claim_selected
claim_from now uuid m preferred [] db = err no_active_workers
claim_from now uuid m preferred (w ∷ ws) db =
    claim_selected now uuid m
      (select_workstation_candidate (w ∷ ws) (list_allocated_slots db.workstations) preferred) db

unfoldable pub claim_workstation :
    ℕ → ℕ → Text → Text → Text → Db → Result ((Workstation × Bool) × Db)
unfolding claim_from list_schedulable_workers
claim_workstation now server_now uuid m preferred db =
    claim_from now uuid m preferred
      (list_schedulable_workers (server_now - schedulable_heartbeat_window) db) db
