-- ===== src/Slots/Allocation.antt =====
-- The map that `listAllocatedSlots` builds holds exactly the slots of the rows.
use mini_control_public.Prelude.{
  ◌≡◌, refl, true, ◌&&◌, List, [], ◌∷◌, arith, any_of, ℕ, ◌==◌, if◌then◌else◌, Bool, ap, Bool-cases,
  ==_iff, inl, inr,
}
use mini_control_public.Text.{Text, text_eq, text_eq_iff}
use mini_control_public.Model.{Workstation}
use mini_control_public.Slots.{Allocated, occupied, slots_of, allocate, list_allocated_slots}

-- The row stands in this slot of this worker.
abbrev pub holds : Text → ℕ → Workstation → Bool
holds worker slot w = text_eq w.worker_id worker && w.slot == slot

-- Some row stands in this slot of this worker.
abbrev pub is_held : Text → ℕ → List Workstation → Bool
is_held worker slot ws = any_of (holds worker slot) ws

occupied-cons :
    (s t : ℕ) (slots : List ℕ)
    → occupied (if occupied slots s then slots else s ∷ slots) t
      ≡ (if s == t then true else occupied slots t)
occupied-cons s t slots = elim (Bool-cases (occupied slots s)) [
  | inr free ↦ rw free refl
  | inl full ↦ rw full (elim (Bool-cases (s == t)) [
    | inl same ↦ ground (arith, ap (occupied slots) ((==_iff s t).0 same))
    | inr other ↦ ground arith
  ])
]

occupied-allocate :
    (v w : Text) (s t : ℕ) (m : Allocated)
    → occupied (slots_of w (allocate v s m)) t
      ≡ (if text_eq v w && s == t then true else occupied (slots_of w m) t)
unfolding slots_of allocate
occupied-allocate v w s t [] = ground (arith)
occupied-allocate v w s t ((u, slots) ∷ m) = ground (
  arith,
  occupied-allocate v w s t m,
  occupied-cons s t slots,
  text_eq_iff u v,
  text_eq_iff u w,
  text_eq_iff v w,
)

-- A slot of a worker is taken in the map exactly when a workstation row stands in it.
pub occupied-list_allocated_slots :
    (w : Text) (t : ℕ) (rows : List Workstation)
    → occupied (slots_of w (list_allocated_slots rows)) t ≡ is_held w t rows
unfolding list_allocated_slots
occupied-list_allocated_slots w t [] = unfold slots_of in refl
occupied-list_allocated_slots w t (r ∷ rows) =
    rw (occupied-allocate r.worker_id w r.slot t, occupied-list_allocated_slots w t rows)
