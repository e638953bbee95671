-- ===== src/Prelude/Tables.antt =====
-- A table as a list of rows: an update and a deletion by a test, and looking a row up afterwards.
use mathlib.Core.Path.{◌≡◌, refl, subst}
use mathlib.Core.Bool.{Bool, true, false}
use mathlib.Core.List.{List, [], ◌∷◌, ◌++◌}
use mathlib.Core.Option.{Option, none, some}
use native.Mathlib.Omega.{arith}
use mini_control_public.Prelude.Tests.{if◌then◌else◌, Bool-cases}
use mini_control_public.Prelude.Lists.{find_if, All}
use mathlib.Core.Logic.{inl, inr}

module _ {ℓ} {A : Type ℓ} where
  -- `UPDATE … SET f WHERE p`.
  unfoldable pub update_where : (A → Bool) → (A → A) → List A → List A
  update_where p f [] = []
  update_where p f (x ∷ xs) = (if p x then f x else x) ∷ update_where p f xs

  -- `DELETE … WHERE p`.
  unfoldable pub delete_where : (A → Bool) → List A → List A
  delete_where p [] = []
  delete_where p (x ∷ xs) = let rest = delete_where p xs in if p x then rest else x ∷ rest

module _ {ℓ} {A : Type ℓ} where
  abbrev pub or_else : Option A → Option A → Option A
  or_else none o = o
  or_else (some a) o = some a

  abbrev pub updated : (A → Bool) → (A → A) → Option A → Option A
  updated p f none = none
  updated p f (some a) = some (if p a then f a else a)

  -- An update that keeps what the lookup tests changes the row that the lookup finds, if it is hit.
  pub find_if-update_where :
      (q p : A → Bool) (f : A → A) (xs : List A)
      → ((a : A) → q (f a) ≡ q a)
      → find_if q (update_where p f xs) ≡ updated p f (find_if q xs)
  unfolding update_where
  find_if-update_where q p f [] keeps = refl
  find_if-update_where q p f (x ∷ xs) keeps =
      ground (arith, keeps x, find_if-update_where q p f xs keeps)

  pub find_if-append :
      (q : A → Bool) (xs ys : List A) → find_if q (xs ++ ys) ≡ or_else (find_if q xs) (find_if q ys)
  find_if-append q [] ys = refl
  find_if-append q (x ∷ xs) ys = ground (arith, find_if-append q xs ys)

  -- A deletion of rows that the lookup does not find leaves its answer alone.
  pub find_if-delete_where :
      (q p : A → Bool) (xs : List A)
      → ((a : A) → p a ≡ true → q a ≡ false)
      → find_if q (delete_where p xs) ≡ find_if q xs
  unfolding delete_where
  find_if-delete_where q p [] apart = refl
  find_if-delete_where q p (x ∷ xs) apart =
      ground (arith, apart x, find_if-delete_where q p xs apart)

  pub find_if-delete_where_self :
      (p : A → Bool) (xs : List A) → find_if p (delete_where p xs) ≡ none
  unfolding delete_where
  find_if-delete_where_self p [] = refl
  find_if-delete_where_self p (x ∷ xs) = ground (arith, find_if-delete_where_self p xs)

  -- What a lookup finds passes its test.
  pub find_if-passes : (q : A → Bool) (xs : List A) (a : A) → find_if q xs ≡ some a → q a ≡ true
  find_if-passes q [] a h = ground arith
  find_if-passes q (x ∷ xs) a h = ground (arith, find_if-passes q xs a)

module _ {ℓ κ} {A : Type ℓ} (P : A → Type κ) where
  pub All-update_where :
      (p : A → Bool) (f : A → A) (xs : List A)
      → ((a : A) → P a → P (f a))
      → All P xs
      → All P (update_where p f xs)
  unfolding update_where
  All-update_where p f [] keeps h = tt
  All-update_where p f (x ∷ xs) keeps h = elim (Bool-cases (p x)) [
    | inl hit ↦ rw hit (keeps x h.0, All-update_where p f xs keeps h.1)
    | inr miss ↦ rw miss (h.0, All-update_where p f xs keeps h.1)
  ]

  pub All-delete_where : (p : A → Bool) (xs : List A) → All P xs → All P (delete_where p xs)
  unfolding delete_where
  All-delete_where p [] h = tt
  All-delete_where p (x ∷ xs) h = elim (Bool-cases (p x)) [
    | inl hit ↦ rw hit (All-delete_where p xs h.1)
    | inr miss ↦ rw miss (h.0, All-delete_where p xs h.1)
  ]

  -- What holds of all rows holds of the one that a lookup finds.
  pub All-find_if : (q : A → Bool) (xs : List A) (a : A) → All P xs → find_if q xs ≡ some a → P a
  All-find_if q [] a h e = cc e
  All-find_if q (x ∷ xs) a h e = elim (Bool-cases (q x)) [
    | inl hit ↦ let k : some x ≡ some a = rw hit at e in subst P (cc) h.0
    | inr miss ↦ All-find_if q xs a h.1 (rw miss at e)
  ]
