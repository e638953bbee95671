-- ===== src/Host/Normal.antt =====
-- What `normalizeHost` makes of host names with a port, bracketed addresses and bare IPv6 addresses.
use mini_control_public.Prelude.{
  ℕ, ◌≡◌, ◌≢◌, refl, ap, ◌∙◌, true, false, [], ◌∷◌, ◌++◌, Option, arith,
}
use mini_control_public.Text.{Text, codes, text_eq_refl, trim_space}
use mini_control_public.Strings.{has_prefix, contains, to_lower, lacks, cut-append, cut-lacks}
use mini_control_public.Host.{
  strip_port, strip, strip_scheme, normalize_trimmed, normalize_host, host_matches,
}

-- In lower case, with no spaces around it and no scheme, and not bracketed.
abbrev pub IsPlain : (ℕ → ℕ) → Text → Type 0
IsPlain lower_rune v =
    (trim_space (to_lower lower_rune v) ≡ v)
    × (contains v (codes "://") ≡ false)
    × (has_prefix v (codes "[") ≡ false)

module _ (lower_rune : ℕ → ℕ) (parse_host : Text → Option Text) where
  strip-plain :
      (v : Text)
      → v ≢ []
      → IsPlain lower_rune v
      → normalize_host lower_rune parse_host v ≡ strip_port v
  unfolding normalize_host strip_scheme strip
  strip-plain v full p = ap (normalize_trimmed lower_rune parse_host) p.0 ∙ nonempty v full p.1 p.2
    where
      nonempty :
          (w : Text)
          → w ≢ []
          → contains w (codes "://") ≡ false
          → has_prefix w (codes "[") ≡ false
          → normalize_trimmed lower_rune parse_host w ≡ strip_port w
      nonempty [] full c h = absurd (full refl)
      nonempty (x ∷ xs) full c h = rw c (rw h refl)

  -- A plain name without a colon is its own normal form.
  pub normalize-name :
      (v : Text)
      → v ≢ []
      → IsPlain lower_rune v
      → lacks b':' v ≡ true
      → normalize_host lower_rune parse_host v ≡ v
  normalize-name v full p l =
      strip-plain v full p ∙ unfold strip_port in rw (cut-lacks v b':' l, strip_port) refl

  -- Of a plain text with something before its first colon, everything from that colon on is
  -- dropped: a port, as it should be, and all but the first group of a bare IPv6 address.
  pub normalize-colon :
      (name rest : Text)
      → name ≢ []
      → lacks b':' name ≡ true
      → IsPlain lower_rune (name ++ b':' ∷ rest)
      → normalize_host lower_rune parse_host (name ++ b':' ∷ rest) ≡ name
  normalize-colon [] rest full l p = absurd (full refl)
  normalize-colon (c ∷ cs) rest full l p =
      strip-plain ((c ∷ cs) ++ b':' ∷ rest) (λ e. cc) p
      ∙ unfold strip_port in rw (cut-append (c ∷ cs) rest b':' l, strip_port) (ground (arith, l))

  -- Two plain texts, bare IPv6 addresses among them, pass for one host as soon as what stands
  -- before their first colons is the same and not empty, whatever the rest of each is.
  pub host_matches-first_group :
      (group rest rest' : Text)
      → group ≢ []
      → lacks b':' group ≡ true
      → IsPlain lower_rune (group ++ b':' ∷ rest)
      → IsPlain lower_rune (group ++ b':' ∷ rest')
      → host_matches lower_rune parse_host (group ++ b':' ∷ rest) (group ++ b':' ∷ rest') ≡ true
  unfolding host_matches
  host_matches-first_group group rest rest' full l p p' =
      rw (normalize-colon group rest full l p)
        (rw (normalize-colon group rest' full l p') (rw (text_eq_refl group) (ground arith)))
