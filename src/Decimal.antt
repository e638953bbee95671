-- ===== src/Decimal.antt =====
-- Numbers as texts of decimal digits, as Go's packages strconv and fmt and Postgres read and print
-- them.
use mini_control_public.Prelude.{
  ℕ, zero, suc, ◌+◌, ◌*◌, ◌-◌, ◌/◌, ◌%◌, ◌<◌, ◌≡◌, refl, ◌&&◌, [], ◌∷◌, ◌++◌, Option, none, some,
  leb, ltb, if◌then◌else◌, arith, Bool-cases, inl, inr, ◌∙◌,
}
use mini_control_public.Text.{Text}

digits_from : ℕ → Text → Option ℕ
digits_from acc [] = some acc
digits_from acc (c ∷ cs) =
    let rest = digits_from (acc * 10 + (c - b'0')) cs in
    if leb b'0' c && leb c b'9' then rest else none

-- The value of a text of decimal digits; `none` for any other.
unfoldable pub digits : Text → Option ℕ
unfolding digits_from
digits [] = none
digits (c ∷ cs) = digits_from 0 (c ∷ cs)

-- The fuel bounds the number.
decimal_from : ℕ → ℕ → Text
decimal_from zero n = []
decimal_from (suc f) n =
    let front = decimal_from f (n / 10) in (if ltb n 10 then [] else front) ++ (b'0' + n % 10) ∷ []

-- `%d` of a number that is not negative.
unfoldable pub decimal : ℕ → Text
unfolding decimal_from
decimal n = decimal_from (suc n) n

digits_from-append :
    (acc d : ℕ) (t : Text) (n : ℕ)
    → d < 10
    → digits_from acc t ≡ some n
    → digits_from acc (t ++ (b'0' + d) ∷ []) ≡ some (n * 10 + d)
unfolding digits_from
digits_from-append acc d [] n h e = ground (arith, e)
digits_from-append acc d (c ∷ cs) n h e =
    ground (arith, e, digits_from-append (acc * 10 + (c - b'0')) d cs n h)

digits_from-decimal_from : (f n : ℕ) → n < f → digits_from 0 (decimal_from f n) ≡ some n
unfolding decimal_from
digits_from-decimal_from zero n h = absurd (omega (arith, h))
digits_from-decimal_from (suc f) n h = elim (Bool-cases (ltb n 10)) [
  | inl small ↦
      let one = digits_from-append 0 (n % 10) [] 0 (omega arith) (unfold digits_from in refl) in
      rw small (ground (arith, one, small))
  | inr large ↦ rw large (
      let ih =
        digits_from-append 0 (n % 10) (decimal_from f (n / 10)) (n / 10) (omega arith)
          (digits_from-decimal_from f (n / 10) (ground (arith, large))) in
      ground (arith, ih))
]

digits-snoc : (c : ℕ) (t : Text) → digits (t ++ c ∷ []) ≡ digits_from 0 (t ++ c ∷ [])
unfolding digits
digits-snoc c [] = refl
digits-snoc c (x ∷ xs) = refl

-- A number that is printed is read as it was.
pub digits-decimal : (n : ℕ) → digits (decimal n) ≡ some n
unfolding decimal decimal_from
digits-decimal n = digits-snoc _ _ ∙ digits_from-decimal_from (suc n) n (omega arith)
