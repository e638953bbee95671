-- ===== src/Access/Claims.antt =====
-- The claims that are accepted.
use mini_control_public.Prelude.{
  ℕ, ◌+◌, ◌<◌, ◌≤◌, ◌≡◌, ◌≢◌, ◌↔◌, ◌⊎◌, inl, inr, refl, Bool, true, false, ◌&&◌, not, List, [], ◌∷◌,
  arith, Any, Bool-cases,
}
use mini_control_public.Text.{Text, codes, text_eq, text_eq_iff}
use mini_control_public.Http.{is_empty}
use mini_control_public.Access.{
  ℤ, pos, negsuc, AccessVerifier, AccessClaims, Checked, passed, ◌>>◌, AccessError,
  unexpected_issuer, unexpected_token_type, audience_mismatch, token_expired, token_not_valid_yet,
  missing_subject, missing_email, email_domain_not_allowed, refuse_if, contains_string, is_expired,
  is_early, access_email_matches_domain, validate_claims,
}

-- The token has not expired at `now`, in seconds.
abbrev pub IsAlive : ℕ → ℤ → Type 0
IsAlive now (pos e) = now < e
IsAlive now (negsuc e) = ⊥

-- The token is valid from at most a minute after `now` on.
abbrev pub HasBegun : ℕ → ℤ → Type 0
HasBegun now (pos b) = b ≤ now + 60
HasBegun now (negsuc b) = Unit {0}

pub contains_string_iff :
    (values : List Text) (target : Text)
    → (contains_string values target ≡ true) ↔ Any (λ v. v ≡ target) values
contains_string_iff [] target = ((λ e. cc e), λ h. elim h [ ])
contains_string_iff (v ∷ vs) target = elim (Bool-cases (text_eq v target)) [
  | inl hit ↦ (λ e. inl ((text_eq_iff v target).0 hit), λ h. rw hit refl)
  | inr miss ↦ rw miss (
    λ e. inr ((contains_string_iff vs target).0 e),
    λ h. elim h [
      | inl e ↦ cc ((text_eq_iff v target).1 e, miss)
      | inr later ↦ (contains_string_iff vs target).1 later
    ],
  )
]

refuse_if_iff :
    (bad : Bool) (why : AccessError) (next : Checked (Unit {0}))
    → ((refuse_if bad why >> next) ≡ passed tt) ↔ ((bad ≡ false) × (next ≡ passed tt))
refuse_if_iff true why next = ground arith
refuse_if_iff false why next = ground arith

refuse_if_last : (bad : Bool) (why : AccessError) → (refuse_if bad why ≡ passed tt) ↔ (bad ≡ false)
refuse_if_last true why = ground arith
refuse_if_last false why = ground arith

differs_iff : (a b : Text) → (not (text_eq a b) ≡ false) ↔ (a ≡ b)
differs_iff a b = ground (arith, text_eq_iff a b)

is_empty_iff : (t : Text) → (is_empty t ≡ false) ↔ (t ≢ [])
is_empty_iff [] = (λ e. cc e, λ n. absurd (n refl))
is_empty_iff (c ∷ cs) = (λ e n. cc n, λ n. refl)

is_expired_iff : (now : ℕ) (e : ℤ) → (is_expired now e ≡ false) ↔ IsAlive now e
is_expired_iff now (pos e) = ground arith
is_expired_iff now (negsuc e) = ground arith

is_early_iff : (now : ℕ) (b : ℤ) → (is_early now b ≡ false) ↔ HasBegun now b
is_early_iff now (pos b) = ground arith
is_early_iff now (negsuc b) = ground arith

module _ (lower_rune : ℕ → ℕ) where
  -- The address is one of the domain that the server is configured with, if it is with any.
  abbrev pub IsAllowed : AccessVerifier → Text → Type 0
  IsAllowed v email =
      (v.allowed_email_domain ≡ [])
      ⊎ (access_email_matches_domain lower_rune email v.allowed_email_domain ≡ true)

  abbrev pub Accepts : ℕ → AccessVerifier → AccessClaims → Type 0
  Accepts now v claims =
      (claims.issuer ≡ v.issuer_url)
      × (claims.type ≡ codes "app")
      × Any (λ a. a ≡ v.audience) claims.audience
      × IsAlive now claims.expires
      × HasBegun now claims.not_before
      × (claims.subject ≢ [])
      × (claims.email ≢ [])
      × IsAllowed v claims.email

  admits_iff :
      (v : AccessVerifier) (email : Text)
      → ((not (is_empty v.allowed_email_domain)
            && not (access_email_matches_domain lower_rune email v.allowed_email_domain))
          ≡ false)
        ↔ IsAllowed v email
  admits_iff v email = go v.allowed_email_domain
    where
      go :
          (d : Text)
          → ((not (is_empty d) && not (access_email_matches_domain lower_rune email d)) ≡ false)
            ↔ ((d ≡ []) ⊎ (access_email_matches_domain lower_rune email d ≡ true))
      go [] = (λ e. inl refl, λ h. refl)
      go (c ∷ cs) = (λ e. inr (ground (arith, e)), λ h. elim h [ inl e ↦ cc e | inr e ↦ rw e refl ])

  -- Claims are valid exactly if the issuer is the verifier's, the type is `app`, the audience names
  -- the server, the token has not expired and has begun but for a minute, a subject and an address
  -- are there, and the address is of the allowed domain if there is one.
  pub validate_claims_iff :
      (now : ℕ) (v : AccessVerifier) (claims : AccessClaims)
      → (validate_claims lower_rune now v claims ≡ passed tt) ↔ Accepts now v claims
  unfolding validate_claims
  validate_claims_iff now v claims = (there, back)
    where
      there : validate_claims lower_rune now v claims ≡ passed tt → Accepts now v claims
      there h =
          let a =
            (refuse_if_iff (not (text_eq claims.issuer v.issuer_url)) unexpected_issuer _).0 h in
          let b =
            (refuse_if_iff (not (text_eq claims.type (codes "app"))) unexpected_token_type _).0
              a.1 in
          let c =
            (refuse_if_iff (not (contains_string claims.audience v.audience)) audience_mismatch _).0
              b.1 in
          let d = (refuse_if_iff (is_expired now claims.expires) token_expired _).0 c.1 in
          let e = (refuse_if_iff (is_early now claims.not_before) token_not_valid_yet _).0 d.1 in
          let f = (refuse_if_iff (is_empty claims.subject) missing_subject _).0 e.1 in
          let g = (refuse_if_iff (is_empty claims.email) missing_email _).0 f.1 in
          (
            (differs_iff _ _).0 a.0,
            (differs_iff _ _).0 b.0,
            (contains_string_iff _ _).0 (ground (arith, c.0)),
            (is_expired_iff now claims.expires).0 d.0,
            (is_early_iff now claims.not_before).0 e.0,
            (is_empty_iff claims.subject).0 f.0,
            (is_empty_iff claims.email).0 g.0,
            (admits_iff v claims.email).0 ((refuse_if_last _ email_domain_not_allowed).0 g.1),
          )

      back : Accepts now v claims → validate_claims lower_rune now v claims ≡ passed tt
      back (i, t, a, e, b, s, m, d) =
          rw
            (
              (differs_iff claims.issuer v.issuer_url).1 i,
              (differs_iff claims.type (codes "app")).1 t,
              (contains_string_iff claims.audience v.audience).1 a,
              (is_expired_iff now claims.expires).1 e,
              (is_early_iff now claims.not_before).1 b,
              (is_empty_iff claims.subject).1 s,
              (is_empty_iff claims.email).1 m,
              (admits_iff v claims.email).1 d,
            )
            refl
