-- ===== src/Access.antt =====
-- server/internal/api/rest/access.go: the access tokens of the browser, and the keys that they are
-- checked with. A Unix time is an integer, `now` the server's in seconds, `clock` in nanoseconds.
pub mod Claims
pub mod Keys
pub mod Verified
pub mod Setup
use mini_control_public.Prelude.{
  ℕ, suc, ◌+◌, ◌*◌, ◌-◌, ◌<◌, ◌≡◌, refl, subst, Bool, true, false, ◌&&◌, ◌||◌, not, List, [], ◌∷◌,
  ◌++◌, Option, none, some, leb, ltb, ◌==◌, if◌then◌else◌, any_of,
}
use mini_control_public.Text.{Text, codes, text_eq, trim_space}
use mini_control_public.Strings.{split, has_suffix, trim_prefix, to_lower}
use mini_control_public.Http.{is_empty}

-- A signed number; `negsuc n` is -(n + 1).
pub data ℤ : Type 0 where
  pos : ℕ → ℤ
  negsuc : ℕ → ℤ

pub record PublicKey : Type 0 where
  pub n : ℕ
  pub e : ℕ

-- `fetched_at` is `none` for the zero time.
pub record AccessVerifier : Type 0 where
  pub audience : Text
  pub issuer_url : Text
  pub certs_url : Text
  pub allowed_email_domain : Text
  pub keys : List (Text × PublicKey)
  pub fetched_at : Option ℕ

pub record AccessJwtHeader : Type 0 where
  pub alg : Text
  pub kid : Text
  pub typ : Text

pub record AccessClaims : Type 0 where
  pub audience : List Text
  pub email : Text
  pub expires : ℤ
  pub issued_at : ℤ
  pub not_before : ℤ
  pub issuer : Text
  pub type : Text
  pub subject : Text

-- A JSON value for the claim `aud`.
pub data AudienceJson : Type 0 where
  aud_null aud_other : AudienceJson
  aud_list : List Text → AudienceJson
  aud_text : Text → AudienceJson

pub data AccessError : Type 0 where
  invalid_token_format decode_header parse_header unsupported_alg missing_key_id : AccessError
  decode_payload parse_payload invalid_aud : AccessError
  unexpected_issuer unexpected_token_type audience_mismatch token_expired : AccessError
  token_not_valid_yet missing_subject missing_email email_domain_not_allowed : AccessError
  fetch_certs parse_certs decode_modulus decode_exponent invalid_exponent : AccessError
  invalid_certificate no_usable_keys unknown_key_id : AccessError
  decode_signature invalid_signature : AccessError

pub data Checked {ℓ} (A : Type ℓ) : Type ℓ where
  passed : A → Checked A
  failed : AccessError → Checked A

infixl 5 ◌>>=◌ ◌>>◌
abbrev pub ◌>>=◌ {ℓ κ} : {A : Type ℓ} {B : Type κ} → Checked A → (A → Checked B) → Checked B
passed a >>= next = next a
failed why >>= next = failed why

abbrev pub ◌>>◌ {ℓ} : {B : Type ℓ} → Checked (Unit {0}) → Checked B → Checked B
passed _ >> next = next
failed why >> next = failed why

pub >>=-passed {ℓ κ} :
    {A : Type ℓ} {B : Type κ} (m : Checked A) (next : A → Checked B) {b : B}
    → (m >>= next) ≡ passed b
    → (a : A) × (m ≡ passed a) × (next a ≡ passed b)
>>=-passed (passed a) next h = (a, refl, h)
>>=-passed (failed why) next h = cc

pub >>-passed {ℓ} :
    {B : Type ℓ} (m : Checked (Unit {0})) (next : Checked B) {b : B}
    → (m >> next) ≡ passed b
    → next ≡ passed b
>>-passed (passed u) next h = h
>>-passed (failed why) next h = cc

-- A postcondition of a value that is answered, if one is.
pub data Ensures {ℓ κ} {A : Type ℓ} (P : A → Type κ) : Checked A → Type (ℓ ⊔ κ) where
  ensures_passed : (a : A) → P a → Ensures P (passed a)
  ensures_failed : (why : AccessError) → Ensures P (failed why)

pub Ensures-bind {ℓ κ μ} :
    {A : Type ℓ} {B : Type κ} {P : B → Type μ} {m : Checked A} {next : A → Checked B}
    → ((a : A) → m ≡ passed a → Ensures P (next a))
    → Ensures P (m >>= next)
Ensures-bind {m = passed a} h = h a refl
Ensures-bind {m = failed why} h = ensures_failed why

pub Ensures-then {κ μ} :
    {B : Type κ} {P : B → Type μ} {m : Checked (Unit {0})} {next : Checked B}
    → (m ≡ passed tt → Ensures P next)
    → Ensures P (m >> next)
Ensures-then {m = passed u} h = h refl
Ensures-then {m = failed why} h = ensures_failed why

pub Ensures-elim {ℓ κ} :
    {A : Type ℓ} {P : A → Type κ} {m : Checked A} {a : A} → Ensures P m → m ≡ passed a → P a
Ensures-elim {P = P} (ensures_passed b p) e = subst P (cc e) p
Ensures-elim (ensures_failed why) e = cc e

-- `if bad { return err }`.
abbrev pub refuse_if : Bool → AccessError → Checked (Unit {0})
refuse_if bad why = if bad then failed why else passed tt

abbrev pub or_fail {ℓ} : {A : Type ℓ} → Option A → AccessError → Checked A
or_fail none why = failed why
or_fail (some a) why = passed a

-- `accessAudience.UnmarshalJSON`; `null` is the nil list.
pub unmarshal_audience : AudienceJson → Checked (List Text)
unmarshal_audience aud_null = passed []
unmarshal_audience (aud_list many) = passed many
unmarshal_audience (aud_text single) = passed (single ∷ [])
unmarshal_audience aud_other = failed invalid_aud

-- `containsString`.
abbrev pub contains_string : List Text → Text → Bool
contains_string values target = any_of (λ v. text_eq v target) values

-- `claims.Expires == 0 || now >= claims.Expires`.
abbrev pub is_expired : ℕ → ℤ → Bool
is_expired now (pos e) = e == 0 || leb e now
is_expired now (negsuc e) = true

-- `claims.NotBefore != 0 && now+60 < claims.NotBefore`.
abbrev pub is_early : ℕ → ℤ → Bool
is_early now (pos b) = not (b == 0) && ltb (now + 60) b
is_early now (negsuc b) = false

-- A key that a token names, put into the map in place of an older one.
abbrev pub put_key : Text → PublicKey → List (Text × PublicKey) → List (Text × PublicKey)
put_key kid key [] = (kid, key) ∷ []
put_key kid key ((k, old) ∷ keys) =
    let rest = put_key kid key keys in if text_eq k kid then (kid, key) ∷ keys else (k, old) ∷ rest

abbrev pub find_key : Text → List (Text × PublicKey) → Option PublicKey
find_key kid [] = none
find_key kid ((k, key) ∷ keys) =
    let rest = find_key kid keys in if text_eq k kid then some key else rest

-- 5 minutes.
abbrev pub key_max_age : ℕ
key_max_age = 300_000_000_000

-- `time.Since(v.fetchedAt) > 5*time.Minute`.
abbrev pub is_outdated : ℕ → Option ℕ → Bool
is_outdated clock none = true
is_outdated clock (some fetched) = ltb key_max_age (clock - fetched)

module _ (lower_rune : ℕ → ℕ) where
  unfoldable pub normalize_access_email_domain : Text → Text
  normalize_access_email_domain domain =
      trim_prefix (trim_space (to_lower lower_rune domain)) (codes "@")

  unfoldable pub access_email_matches_domain : Text → Text → Bool
  unfolding normalize_access_email_domain
  access_email_matches_domain email domain =
      let email' = trim_space (to_lower lower_rune email) in
      let domain' = normalize_access_email_domain domain in
      if is_empty email' || is_empty domain'
      then false
      else has_suffix email' (codes "@" ++ domain')

  unfoldable pub validate_claims : ℕ → AccessVerifier → AccessClaims → Checked (Unit {0})
  unfolding access_email_matches_domain
  validate_claims now v claims = do
    refuse_if (not (text_eq claims.issuer v.issuer_url)) unexpected_issuer
    refuse_if (not (text_eq claims.type (codes "app"))) unexpected_token_type
    refuse_if (not (contains_string claims.audience v.audience)) audience_mismatch
    refuse_if (is_expired now claims.expires) token_expired
    refuse_if (is_early now claims.not_before) token_not_valid_yet
    refuse_if (is_empty claims.subject) missing_subject
    refuse_if (is_empty claims.email) missing_email
    refuse_if
        (not (is_empty v.allowed_email_domain)
          && not (access_email_matches_domain claims.email v.allowed_email_domain))
        email_domain_not_allowed
