-- ===== src/Slots/Least.antt =====
-- The slot that `firstAvailableSlot` finds.
use mini_control_public.Prelude.{
  ℕ, zero, suc, ◌+◌, ◌≤◌, ◌<◌, ◌≡◌, inl, inr, true, false, List, Option, none, some, arith,
  ℕ_discrete, Option-cases, ◌↔◌, Bool-cases,
}
use mini_control_public.Model.{Worker}
use mini_control_public.Slots.{occupied, scan_slots, first_available_slot}

-- What the scan from `slot` over `rounds` slots answers.
abbrev Scanned : ℕ → ℕ → List ℕ → Option ℕ → Type 0
Scanned rounds slot slots none = (t : ℕ) → slot ≤ t → t < slot + rounds → occupied slots t ≡ true
Scanned rounds slot slots (some s) =
    (slot ≤ s)
    × (s < slot + rounds)
    × (occupied slots s ≡ false)
    × ((t : ℕ) → slot ≤ t → t < s → occupied slots t ≡ true)

occupied-at : (slots : List ℕ) (s t : ℕ) → occupied slots s ≡ true → s ≡ t → occupied slots t ≡ true
occupied-at slots s t h e = rw e at h

-- One more slot in front of what the rest of the scan answers.
Scanned-step :
    (rounds slot : ℕ) (slots : List ℕ) (r : Option ℕ)
    → occupied slots slot ≡ true
    → Scanned rounds (slot + 1) slots r
    → Scanned (suc rounds) slot slots r
Scanned-step rounds slot slots none full h = λ t lo hi. elim (ℕ_discrete slot t) [
  | yes e ↦ occupied-at slots slot t full e
  | no ne ↦ h t (omega arith) (omega arith)
]
Scanned-step rounds slot slots (some s) full h = (
  omega (arith, h.0),
  omega (arith, h.1),
  h.2,
  λ t lo hi. elim (ℕ_discrete slot t) [
    | yes e ↦ occupied-at slots slot t full e
    | no ne ↦ h.3 t (omega arith) hi
  ],
)

scan_slots-Scanned :
    (rounds slot : ℕ) (slots : List ℕ) → Scanned rounds slot slots (scan_slots rounds slot slots)
unfolding scan_slots
scan_slots-Scanned zero slot slots = λ t lo hi. absurd (omega arith)
scan_slots-Scanned (suc rounds) slot slots = elim (Bool-cases (occupied slots slot)) [
  | inl full ↦
      rw full (Scanned-step rounds slot slots _ full (scan_slots-Scanned rounds (slot + 1) slots))
  | inr free ↦ rw free (omega arith, omega arith, free, λ t lo hi. absurd (omega arith))
]

-- A slot that `first_available_slot` finds is the least free slot of the worker's pool.
pub first_available_slot-least :
    (w : Worker) (slots : List ℕ) (s : ℕ)
    → first_available_slot w slots ≡ some s
    → (s < w.pool_size) × (occupied slots s ≡ false) × ((t : ℕ) → t < s → occupied slots t ≡ true)
unfolding first_available_slot
first_available_slot-least w slots s e =
    let h : Scanned w.pool_size 0 slots (some s) =
      rw e at (scan_slots-Scanned w.pool_size 0 slots) in
    (omega (arith, h.1), h.2, λ t lt. h.3 t (omega arith) lt)

-- No slot is found only where every slot of the pool is taken.
pub first_available_slot-full :
    (w : Worker) (slots : List ℕ)
    → first_available_slot w slots ≡ none
    → (t : ℕ) → t < w.pool_size
    → occupied slots t ≡ true
unfolding first_available_slot
first_available_slot-full w slots e t lt =
    let h : Scanned w.pool_size 0 slots none = rw e at (scan_slots-Scanned w.pool_size 0 slots) in
    h t (omega arith) (omega arith)

-- The search succeeds exactly when the pool has a free slot.
pub first_available_slot_iff :
    (w : Worker) (slots : List ℕ)
    → ((s : ℕ) × (first_available_slot w slots ≡ some s))
      ↔ ((t : ℕ) × (t < w.pool_size) × (occupied slots t ≡ false))
first_available_slot_iff w slots = (there, back)
  where
    there :
        (s : ℕ) × (first_available_slot w slots ≡ some s)
        → (t : ℕ) × (t < w.pool_size) × (occupied slots t ≡ false)
    there (s, e) = let h = first_available_slot-least w slots s e in (s, h.0, h.1)

    back :
        (t : ℕ) × (t < w.pool_size) × (occupied slots t ≡ false)
        → (s : ℕ) × (first_available_slot w slots ≡ some s)
    back (t, lt, free) = elim (Option-cases (first_available_slot w slots)) [
      | inl full ↦ absurd (cc (first_available_slot-full w slots full t lt, free))
      | inr found ↦ found
    ]
