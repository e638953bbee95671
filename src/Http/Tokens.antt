-- ===== src/Http/Tokens.antt =====
-- Bearer tokens, and numbers in queries.
use mini_control_public.Prelude.{
  ℕ, ◌≤◌, ◌≡◌, ◌≢◌, ◌↔◌, ◌⊎◌, inl, refl, true, [], ◌∷◌, Option, none, some, arith,
}
use mini_control_public.Text.{Text, text_eq_iff, trim_space}
use mini_control_public.Decimal.{digits}
use mini_control_public.Http.{
  tokens_match, parse_positive_query_int, int64_max, positive_or, without_plus,
}

-- Two tokens match exactly if they are the same and not empty.
pub tokens_match_iff :
    (expected actual : Text)
    → (tokens_match expected actual ≡ true) ↔ ((expected ≡ actual) × (expected ≢ []))
unfolding tokens_match
tokens_match_iff [] actual = ground arith
tokens_match_iff (e ∷ es) [] = ground arith
tokens_match_iff (e ∷ es) (a ∷ as') = ground (arith, text_eq_iff (e ∷ es) (a ∷ as'))

positive_or_bounds :
    (fallback : ℕ) (o : Option ℕ)
    → (positive_or fallback o ≡ fallback)
      ⊎ ((1 ≤ positive_or fallback o) × (positive_or fallback o ≤ int64_max))
positive_or_bounds fallback none = inl refl
positive_or_bounds fallback (some n) = ground arith

-- The number that is read from a query is the fallback, or positive and at most 2^63 - 1.
pub parse_positive_query_int_bounds :
    (value : Text) (fallback : ℕ)
    → (parse_positive_query_int value fallback ≡ fallback)
      ⊎ ((1 ≤ parse_positive_query_int value fallback)
          × (parse_positive_query_int value fallback ≤ int64_max))
unfolding parse_positive_query_int
parse_positive_query_int_bounds value fallback =
    positive_or_bounds fallback (digits (without_plus (trim_space value)))
