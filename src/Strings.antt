-- ===== src/Strings.antt =====
-- Go's package strings, the functions that the server calls on hosts, headers and emails.
-- `unicode.ToLower` outside ASCII is a parameter, `lower_rune`.
use mini_control_public.Prelude.{
  ℕ, ◌+◌, ◌≡◌, refl, Bool, true, false, ◌&&◌, List, ap, [], ◌∷◌, ◌++◌, Option, none, some, map, leb,
  ltb, ◌==◌, if◌then◌else◌, arith, Bool-cases, Option-cases, inl, inr,
}
use mathlib.Core.List.{reverse}
use mini_control_public.Text.{Text, codes, text_eq, text_eq_iff, text_eq_refl}

-- `strings.HasPrefix`.
unfoldable pub has_prefix : Text → Text → Bool
has_prefix t [] = true
has_prefix [] (p ∷ ps) = false
has_prefix (c ∷ cs) (p ∷ ps) = let rest = has_prefix cs ps in if c == p then rest else false

-- `strings.Contains`.
unfoldable pub contains : Text → Text → Bool
unfolding has_prefix
contains [] s = has_prefix [] s
contains (c ∷ cs) s = let rest = contains cs s in if has_prefix (c ∷ cs) s then true else rest

-- `strings.CutPrefix`.
unfoldable pub cut_prefix : Text → Text → Option Text
cut_prefix t [] = some t
cut_prefix [] (p ∷ ps) = none
cut_prefix (c ∷ cs) (p ∷ ps) = let rest = cut_prefix cs ps in if c == p then rest else none

-- `strings.TrimPrefix`.
unfoldable pub trim_prefix : Text → Text → Text
unfolding cut_prefix
trim_prefix t p = elim (cut_prefix t p) [ none ↦ t | some rest ↦ rest ]

-- `strings.Cut` at a separator of one character: what stands before and behind the first one.
abbrev cons_before : ℕ → Option (Text × Text) → Option (Text × Text)
cons_before c none = none
cons_before c (some (before, after)) = some (c ∷ before, after)

unfoldable pub cut : Text → ℕ → Option (Text × Text)
cut [] sep = none
cut (c ∷ cs) sep = let rest = cons_before c (cut cs sep) in if c == sep then some ([], cs) else rest

-- The character stands nowhere in the text.
abbrev pub lacks : ℕ → Text → Bool
lacks c [] = true
lacks c (x ∷ xs) = let rest = lacks c xs in if x == c then false else rest

pub cut-append :
    (before after : Text) (sep : ℕ)
    → lacks sep before ≡ true
    → cut (before ++ sep ∷ after) sep ≡ some (before, after)
unfolding cut
cut-append [] after sep h = ground arith
cut-append (c ∷ cs) after sep h = ground (arith, cut-append cs after sep)

pub cut-lacks : (t : Text) (sep : ℕ) → lacks sep t ≡ true → cut t sep ≡ none
unfolding cut
cut-lacks [] sep h = refl
cut-lacks (c ∷ cs) sep h = ground (arith, cut-lacks cs sep)

-- What `cut` puts in front has no separator, and the parts make the text again.
pub cut_parts :
    (t : Text) (sep : ℕ) (before after : Text)
    → cut t sep ≡ some (before, after)
    → (lacks sep before ≡ true) × (t ≡ before ++ sep ∷ after)
unfolding cut
cut_parts [] sep before after h = ground arith
cut_parts (c ∷ cs) sep before after h = elim (Bool-cases (c == sep)) [
  | inl here ↦
      let k : ◌≡◌ {A = Option (Text × Text)} (some ([], cs)) (some (before, after)) =
        rw here at h in
      ground arith
  | inr later ↦ elim (Option-cases (cut cs sep)) [
    | inl missing ↦ cc (rw (later, missing) at h)
    | inr ((b, a), e) ↦
        let k : ◌≡◌ {A = Option (Text × Text)} (some (c ∷ b, a)) (some (before, after)) =
          rw (later, e) at h in
        let r = cut_parts cs sep b a e in ground arith
  ]
]

module _ (lower_rune : ℕ → ℕ) where
  unfoldable pub lower : ℕ → ℕ
  lower c = if leb b'A' c && leb c b'Z' then c + 32 else if ltb c 128 then c else lower_rune c

  -- `strings.ToLower`.
  unfoldable pub to_lower : Text → Text
  unfolding lower
  to_lower t = map lower t

test_cut : cut (codes "a:b:c") b':' ≡ some (codes "a", codes "b:c")
unfolding cut
test_cut = refl

test_contains : contains (codes "https://x") (codes "://") ≡ true
unfolding contains
test_contains = refl

-- `strings.HasSuffix`.
unfoldable pub has_suffix : Text → Text → Bool
has_suffix [] s = text_eq [] s
has_suffix (c ∷ cs) s = let rest = has_suffix cs s in if text_eq (c ∷ cs) s then true else rest

-- A text ends with `s` exactly if it is something in front of `s`.
pub has_suffix_to : (t s : Text) → has_suffix t s ≡ true → (front : Text) × (t ≡ front ++ s)
unfolding has_suffix
has_suffix_to [] s h = ([], (text_eq_iff [] s).0 h)
has_suffix_to (c ∷ cs) s h = elim (Bool-cases (text_eq (c ∷ cs) s)) [
  | inl here ↦ ([], (text_eq_iff (c ∷ cs) s).0 here)
  | inr later ↦ let (front, e) = has_suffix_to cs s (ground arith) in (c ∷ front, ap (λ r. c ∷ r) e)
]

pub has_suffix_of : (front s : Text) → has_suffix (front ++ s) s ≡ true
unfolding has_suffix
has_suffix_of [] [] = text_eq_refl []
has_suffix_of [] (x ∷ s) = rw (text_eq_refl (x ∷ s)) refl
has_suffix_of (c ∷ front) s = ground (arith, has_suffix_of front s)

-- `strings.Split` at a separator of one character.
abbrev cons_first : ℕ → List Text → List Text
cons_first c [] = []
cons_first c (t ∷ ts) = (c ∷ t) ∷ ts

unfoldable pub split : ℕ → Text → List Text
split sep [] = [] ∷ []
split sep (c ∷ cs) = let rest = split sep cs in if c == sep then [] ∷ rest else cons_first c rest

drop_all : ℕ → Text → Text
drop_all c [] = []
drop_all c (x ∷ xs) = let rest = drop_all c xs in if x == c then rest else x ∷ xs

-- `strings.TrimRight` of one character.
unfoldable pub trim_right : ℕ → Text → Text
unfolding drop_all
trim_right c t = reverse (drop_all c (reverse t))
