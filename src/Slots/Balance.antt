-- ===== src/Slots/Balance.antt =====
-- The worker that `selectWorkstationCandidate` chooses.
use mini_control_public.Prelude.{
  ℕ, ◌≤◌, ◌<◌, ◌≡◌, refl, ◌⊎◌, inl, inr, true, false, List, [], ◌∷◌, Option, none, some, arith, All,
  Any, All-map, Any-map, Bool-cases, Option-cases, length, ◌∙◌, subst,
}
use mini_control_public.Text.{text_lt, text_eq_iff, text_lt_trans, text_lt_antisymm, text_lt_irrefl}
use mini_control_public.Model.{Worker}
use mini_control_public.Slots.{
  Allocated, Candidate, improves, consider, candidate, least_loaded, slots_of, first_available_slot,
  occupied, SelectError, chosen, refused, no_slots_available, select_workstation_candidate,
}
use mini_control_public.Slots.Least.{first_available_slot-least, first_available_slot-full}

improves_trans :
    (c d e : Candidate) → improves c d ≡ true → improves d e ≡ true → improves c e ≡ true
improves_trans c d e h k = ground (
  arith,
  text_lt_trans c.worker_id d.worker_id e.worker_id,
  text_eq_iff c.worker_id d.worker_id,
  text_eq_iff d.worker_id e.worker_id,
  text_eq_iff c.worker_id e.worker_id,
)

-- A better candidate than `b` that is not better than `d` puts `d` before `b`.
improves_weak :
    (c d b : Candidate) → improves c b ≡ true → improves c d ≡ false → improves d b ≡ true
improves_weak c d b h k = ground (
  arith,
  text_lt_antisymm c.worker_id d.worker_id,
  text_lt_trans d.worker_id c.worker_id b.worker_id,
  text_eq_iff c.worker_id d.worker_id,
  text_eq_iff d.worker_id b.worker_id,
  text_eq_iff c.worker_id b.worker_id,
)

not_beaten_below :
    (c d b : Candidate) → improves c d ≡ true → improves c b ≡ false → improves d b ≡ false
not_beaten_below c d b h k = elim (Bool-cases (improves d b)) [
  | inl wins ↦ cc (improves_trans c d b h wins)
  | inr loses ↦ loses
]

not_beaten_above :
    (c d b : Candidate) → improves c d ≡ false → improves d b ≡ false → improves c b ≡ false
not_beaten_above c d b h k = elim (Bool-cases (improves c b)) [
  | inl wins ↦ cc (improves_weak c d b wins h)
  | inr loses ↦ loses
]

abbrev NotBeaten : Candidate → Option Candidate → Type 0
NotBeaten b none = Unit
NotBeaten b (some c) = improves c b ≡ false

improves_irrefl : (c : Candidate) → improves c c ≡ false
improves_irrefl c = ground (arith, text_lt_irrefl c.worker_id)

-- What the loop over `ws` answers when it starts from `best`.
abbrev Outcome : Allocated → List Worker → Option Candidate → Option Candidate → Type 0
Outcome existing ws best none = (best ≡ none) × All (λ w. candidate existing w ≡ none) ws
Outcome existing ws best (some b) =
    ((best ≡ some b) ⊎ Any (λ w. candidate existing w ≡ some b) ws)
    × NotBeaten b best
    × All (λ w. NotBeaten b (candidate existing w)) ws

NotBeaten-of : (b : Candidate) (o o' : Option Candidate) → o ≡ o' → NotBeaten b o' → NotBeaten b o
NotBeaten-of b o o' e h = rw e h

consider-Outcome :
    (existing : Allocated) (w : Worker) (ws : List Worker) (c best r : Option Candidate)
    → candidate existing w ≡ c
    → Outcome existing ws (consider c best) r
    → Outcome existing (w ∷ ws) best r
consider-Outcome existing w ws none best none e h = (h.0, (e, h.1))
consider-Outcome existing w ws none best (some b) e h =
    (elim h.0 [ inl p ↦ inl p | inr q ↦ inr (inr q) ], h.1, (NotBeaten-of b _ none e tt, h.2))
consider-Outcome existing w ws (some c) none none e h = cc h.0
consider-Outcome existing w ws (some c) none (some b) e h = (
  elim h.0 [ inl p ↦ inr (inl (e ∙ p)) | inr q ↦ inr (inr q) ],
  tt,
  (NotBeaten-of b _ (some c) e h.1, h.2),
)
consider-Outcome existing w ws (some c) (some d) none e h = ground (arith)
consider-Outcome existing w ws (some c) (some d) (some b) e h = elim (Bool-cases (improves c d)) [
  | inl wins ↦
      let k : Outcome existing ws (some c) (some b) = rw wins at h in
      (
        elim k.0 [ inl p ↦ inr (inl (e ∙ p)) | inr q ↦ inr (inr q) ],
        not_beaten_below c d b wins k.1,
        (NotBeaten-of b _ (some c) e k.1, k.2),
      )
  | inr loses ↦
      let k : Outcome existing ws (some d) (some b) = rw loses at h in
      (
        elim k.0 [ inl p ↦ inl p | inr q ↦ inr (inr q) ],
        k.1,
        (NotBeaten-of b _ (some c) e (not_beaten_above c d b loses k.1), k.2),
      )
]

least_loaded-Outcome :
    (existing : Allocated) (ws : List Worker) (best : Option Candidate)
    → Outcome existing ws best (least_loaded existing ws best)
unfolding least_loaded
least_loaded-Outcome existing [] none = (refl, tt)
least_loaded-Outcome existing [] (some b) = (inl refl, improves_irrefl b, tt)
least_loaded-Outcome existing (w ∷ ws) best =
    consider-Outcome existing w ws (candidate existing w) best _ refl
      (least_loaded-Outcome existing ws (consider (candidate existing w) best))

abbrev pub load : Allocated → Worker → ℕ
load existing w = length (slots_of w.id existing)

abbrev pub IsFree : Allocated → Worker → ℕ → Type 0
IsFree existing w t = (t < w.pool_size) × (occupied (slots_of w.id existing) t ≡ false)

-- The candidate stands for this worker: its least free slot and its load.
abbrev pub StandsFor : Allocated → Candidate → Worker → Type 0
StandsFor existing c w =
    (w.id ≡ c.worker_id)
    × (IsFree existing w c.slot)
    × ((t : ℕ) → t < c.slot → occupied (slots_of w.id existing) t ≡ true)
    × (load existing w ≡ c.count)

abbrev pub IsFull : Allocated → Worker → Type 0
IsFull existing w = (t : ℕ) → t < w.pool_size → occupied (slots_of w.id existing) t ≡ true

pub candidate-StandsFor :
    (existing : Allocated) (w : Worker) (c : Candidate)
    → candidate existing w ≡ some c
    → StandsFor existing c w
unfolding candidate
candidate-StandsFor existing w c e =
    elim (Option-cases (first_available_slot w (slots_of w.id existing))) [
      | inl full ↦ cc (rw (full, candidate) at e)
      | inr (s, found) ↦
          let d : Candidate = record { worker_id = w.id; slot = s; count = load existing w } in
          let p : some d ≡ some c = rw (found, candidate) at e in
          let h = first_available_slot-least w (slots_of w.id existing) s found in
          subst (λ o. StandsFor existing o w) (cc) (refl, (h.0, h.1), h.2, refl)
    ]

pub candidate-IsFull :
    (existing : Allocated) (w : Worker) → candidate existing w ≡ none → IsFull existing w
unfolding candidate
candidate-IsFull existing w e =
    elim (Option-cases (first_available_slot w (slots_of w.id existing))) [
      | inl full ↦ first_available_slot-full w (slots_of w.id existing) full
      | inr (s, found) ↦ cc (rw (found, candidate) at e)
    ]

-- How the chosen candidate compares with a worker that has a free slot.
abbrev pub NoLighter : Allocated → Candidate → Worker → Type 0
NoLighter existing b w =
    (t : ℕ)
    → IsFree existing w t
    → (b.count ≤ load existing w) × (load existing w ≡ b.count → text_lt w.id b.worker_id ≡ false)

NoLighter-of :
    (existing : Allocated) (b : Candidate) (w : Worker) (o : Option Candidate)
    → candidate existing w ≡ o
    → NotBeaten b o
    → NoLighter existing b w
NoLighter-of existing b w none e h t free =
    absurd (cc (candidate-IsFull existing w e t free.0, free.1))
NoLighter-of existing b w (some c) e h t free = ground (arith, candidate-StandsFor existing w c e)

-- With no preferred worker, a candidate that the scheduler answers stands for a worker of the list
-- and its least free slot, and no worker with a free slot carries fewer workstations, nor as many
-- under a smaller ID.
pub select-balanced :
    (workers : List Worker) (existing : Allocated) (b : Candidate)
    → select_workstation_candidate workers existing [] ≡ chosen b
    → Any (StandsFor existing b) workers × All (NoLighter existing b) workers
unfolding select_workstation_candidate
select-balanced workers existing b e = go (least_loaded existing workers none) refl
  where
    outcome : Outcome existing workers none (least_loaded existing workers none)
    outcome = least_loaded-Outcome existing workers none

    go :
        (r : Option Candidate)
        → least_loaded existing workers none ≡ r
        → Any (StandsFor existing b) workers × All (NoLighter existing b) workers
    go none r = cc (rw (r, select_workstation_candidate) at e)
    go (some d) r =
        let k : Outcome existing workers none (some d) = rw r at outcome in
        let p : chosen d ≡ chosen b = rw (r, select_workstation_candidate) at e in
        let q : d ≡ b = cc in
        subst (λ c. Any (StandsFor existing c) workers × All (NoLighter existing c) workers) q
          (
            elim k.0 [
              | inl bad ↦ cc bad
              | inr any ↦ Any-map (λ w. candidate-StandsFor existing w d) workers any
            ],
            All-map (λ w. NoLighter-of existing d w _ refl) workers k.2,
          )

-- With no preferred worker the scheduler refuses only where every worker is full.
pub select-All-IsFull :
    (workers : List Worker) (existing : Allocated) (e : SelectError)
    → select_workstation_candidate workers existing [] ≡ refused e
    → (e ≡ no_slots_available) × All (IsFull existing) workers
unfolding select_workstation_candidate
select-All-IsFull workers existing e h = go (least_loaded existing workers none) refl
  where
    outcome : Outcome existing workers none (least_loaded existing workers none)
    outcome = least_loaded-Outcome existing workers none

    go :
        (r : Option Candidate)
        → least_loaded existing workers none ≡ r
        → (e ≡ no_slots_available) × All (IsFull existing) workers
    go none r =
        let k : Outcome existing workers none none = rw r at outcome in
        let p : refused no_slots_available ≡ refused e =
          rw (r, select_workstation_candidate) at h in
        (cc, All-map (λ w. candidate-IsFull existing w) workers k.1)
    go (some d) r = cc (rw (r, select_workstation_candidate) at h)
