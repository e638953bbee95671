-- ===== src/Prelude/Order.antt =====
-- What a selection and an ordering of rows keep.
use mathlib.Core.Path.{◌≡◌}
use mathlib.Core.Logic.{inl, inr}
use mathlib.Core.Bool.{Bool, true}
use mathlib.Core.List.{List, [], ◌∷◌}
use mini_control_public.Prelude.Tests.{Bool-cases}
use mini_control_public.Prelude.Lists.{All, Any, keep_if, insert_by, order_by}

module _ {ℓ κ} {A : Type ℓ} (P : A → Type κ) where
  module _ (before : A → A → Bool) where
    Any-insert_by : (a : A) (xs : List A) → Any P (insert_by before a xs) → Any P (a ∷ xs)
    Any-insert_by a [] h = h
    Any-insert_by a (x ∷ xs) h = elim (Bool-cases (before x a)) [
      | inl earlier ↦
          let k : Any P (x ∷ insert_by before a xs) = rw earlier at h in
          elim k [
            | inl p ↦ inr (inl p)
            | inr q ↦ elim (Any-insert_by a xs q) [ inl p ↦ inl p | inr r ↦ inr (inr r) ]
          ]
      | inr later ↦ rw later at h
    ]

    -- What holds of an ordered row holds of a row.
    pub Any-order_by : (xs : List A) → Any P (order_by before xs) → Any P xs
    Any-order_by [] h = h
    Any-order_by (x ∷ xs) h = elim (Any-insert_by x (order_by before xs) h) [
      | inl p ↦ inl p
      | inr q ↦ inr (Any-order_by xs q)
    ]

    All-insert_by : (a : A) (xs : List A) → All P (insert_by before a xs) → All P (a ∷ xs)
    All-insert_by a [] h = h
    All-insert_by a (x ∷ xs) h = elim (Bool-cases (before x a)) [
      | inl earlier ↦
          let k : All P (x ∷ insert_by before a xs) = rw earlier at h in
          let r = All-insert_by a xs k.1 in (r.0, (k.0, r.1))
      | inr later ↦ rw later at h
    ]

    pub All-order_by : (xs : List A) → All P (order_by before xs) → All P xs
    All-order_by [] h = h
    All-order_by (x ∷ xs) h =
        let r = All-insert_by x (order_by before xs) h in (r.0, All-order_by xs r.1)

  module _ (q : A → Bool) where
    pub Any-keep_if : (xs : List A) → Any P (keep_if q xs) → Any (λ x. (q x ≡ true) × P x) xs
    Any-keep_if [] h = elim h [ ]
    Any-keep_if (x ∷ xs) h = elim (Bool-cases (q x)) [
      | inl kept ↦
          let k : Any P (x ∷ keep_if q xs) = rw kept at h in
          elim k [ inl p ↦ inl (kept, p) | inr r ↦ inr (Any-keep_if xs r) ]
      | inr dropped ↦ let k : Any P (keep_if q xs) = rw dropped at h in inr (Any-keep_if xs k)
    ]

    pub All-keep_if : (xs : List A) → All P (keep_if q xs) → All (λ x. q x ≡ true → P x) xs
    All-keep_if [] h = tt
    All-keep_if (x ∷ xs) h = elim (Bool-cases (q x)) [
      | inl kept ↦ let k : All P (x ∷ keep_if q xs) = rw kept at h in (λ _. k.0, All-keep_if xs k.1)
      | inr dropped ↦ let k : All P (keep_if q xs) = rw dropped at h in (λ e. cc, All-keep_if xs k)
    ]
