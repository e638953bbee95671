-- ===== src/Slots.antt =====
-- The scheduler of server/internal/db/workstations.go: which slots of which worker are taken, and
-- which worker and slot the next workstation gets.
pub mod Least
pub mod Balance
pub mod Preferred
pub mod Allocation
use mini_control_public.Prelude.{
  ℕ, zero, suc, ◌+◌, Bool, true, false, ◌&&◌, ◌||◌, List, [], ◌∷◌, Option, none, some, length,
  any_of, ltb, ◌==◌, if◌then◌else◌, arith, ◌≡◌, refl,
}
use mini_control_public.Text.{Text, codes, text_eq, text_lt}
use mini_control_public.Model.{Worker, Workstation}

-- `map[string]map[int]bool`: for each worker, the slots whose entry is `true`, each once.
abbrev pub Allocated : Type 0
Allocated = List (Text × List ℕ)

abbrev pub occupied : List ℕ → ℕ → Bool
occupied slots slot = any_of (λ s. s == slot) slots

-- `existing[workerID]`, the empty map where the key is missing.
unfoldable pub slots_of : Text → Allocated → List ℕ
slots_of worker [] = []
slots_of worker ((w, slots) ∷ rest) =
    let others = slots_of worker rest in if text_eq w worker then slots else others

-- `allocated[workerID][slot] = true`, the inner map made where it is missing.
pub allocate : Text → ℕ → Allocated → Allocated
allocate worker slot [] = (worker, slot ∷ []) ∷ []
allocate worker slot ((w, slots) ∷ rest) =
    let others = allocate worker slot rest in
    if text_eq w worker
    then (w, if occupied slots slot then slots else slot ∷ slots) ∷ rest
    else (w, slots) ∷ others

-- The loop over the rows of `SELECT worker_id, slot FROM workstations`.
pub list_allocated_slots : List Workstation → Allocated
unfolding allocate
list_allocated_slots [] = []
list_allocated_slots (w ∷ ws) = allocate w.worker_id w.slot (list_allocated_slots ws)

-- The rounds of `for slot := 0; slot < worker.PoolSize; slot++` that are left, from `slot` on.
scan_slots : ℕ → ℕ → List ℕ → Option ℕ
scan_slots zero slot slots = none
scan_slots (suc rounds) slot slots =
    let next = scan_slots rounds (slot + 1) slots in if occupied slots slot then next else some slot

unfoldable pub first_available_slot : Worker → List ℕ → Option ℕ
unfolding scan_slots
first_available_slot worker slots = scan_slots worker.pool_size 0 slots

pub record Candidate : Type 0 where
  pub worker_id : Text
  pub slot : ℕ
  pub count : ℕ

pub data SelectError : Type 0 where
  target_worker_full target_worker_unavailable no_slots_available : SelectError

pub data Selected : Type 0 where
  chosen : Candidate → Selected
  refused : SelectError → Selected

-- `count < best.count || (count == best.count && (…))` for a worker with a free slot.
abbrev improves : Candidate → Candidate → Bool
improves c best =
    ltb c.count best.count
    || (c.count == best.count
        && (text_lt c.worker_id best.worker_id
            || (text_eq c.worker_id best.worker_id && ltb c.slot best.slot)))

-- The worker as a candidate, if it has a free slot.
unfoldable pub candidate : Allocated → Worker → Option Candidate
unfolding first_available_slot
candidate existing w = elim (first_available_slot w (slots_of w.id existing)) [
  | none ↦ none
  | some slot ↦
      some (record { worker_id = w.id; slot = slot; count = length (slots_of w.id existing) })
]

abbrev better : Candidate → Option Candidate → Option Candidate
better c none = some c
better c (some best) = if improves c best then some c else some best

-- One round of the loop over the workers; `none` stands for `best.slot == -1`.
abbrev consider : Option Candidate → Option Candidate → Option Candidate
consider none best = best
consider (some c) best = better c best

pub least_loaded : Allocated → List Worker → Option Candidate → Option Candidate
unfolding candidate
least_loaded existing [] best = best
least_loaded existing (w ∷ ws) best =
    least_loaded existing ws (consider (candidate existing w) best)

-- The loop that looks for the preferred worker.
pub preferred_candidate : Allocated → Text → List Worker → Selected
unfolding candidate
preferred_candidate existing preferred [] = refused target_worker_unavailable
preferred_candidate existing preferred (w ∷ ws) =
    let rest = preferred_candidate existing preferred ws in
    if text_eq w.id preferred
    then (elim (candidate existing w) [ none ↦ refused target_worker_full | some c ↦ chosen c ])
    else rest

unfoldable pub select_workstation_candidate : List Worker → Allocated → Text → Selected
unfolding least_loaded preferred_candidate
select_workstation_candidate workers existing [] = elim (least_loaded existing workers none) [
  | none ↦ refused no_slots_available
  | some best ↦ chosen best
]
select_workstation_candidate workers existing (c ∷ cs) =
    preferred_candidate existing (c ∷ cs) workers
