-- ===== src/Access/Verified.antt =====
-- `Verify`: a token is three parts of base64 text between dots.
-- `decode` is base64, `parse_header` and `parse_payload` read the JSON of the two objects, where
-- the claims come back with `aud` as it stands there, `sha256` hashes a text, and `verifies` is
-- `rsa.VerifyPKCS1v15` on a key, a hash and a signature.
use mini_control_public.Prelude.{
  ℕ, ◌≡◌, refl, Bool, true, false, not, List, [], ◌∷◌, ◌++◌, Option, some, arith, subst,
}
use mini_control_public.Text.{Text, codes, text_eq}
use mini_control_public.Strings.{split}
use mini_control_public.Http.{is_empty}
use mini_control_public.Access.{
  PublicKey, AccessVerifier, AccessJwtHeader, AccessClaims, AudienceJson, unmarshal_audience,
  invalid_token_format, decode_header, parse_header, unsupported_alg, missing_key_id,
  decode_payload, parse_payload, decode_signature, invalid_signature, Checked, passed, failed,
  ◌>>=◌, ◌>>◌, Ensures, ensures_passed, Ensures-bind, Ensures-then, Ensures-elim, refuse_if,
  or_fail, validate_claims, find_key, is_outdated,
}
use mini_control_public.Access.Claims.{Accepts, validate_claims_iff}
use mini_control_public.Access.Keys.{CertResponse, Fetched, lookup_key, Known, lookup_key-Known}

-- The parts of a token.
pub record Parts : Type 0 where
  pub header : Text
  pub payload : Text
  pub signature : Text

abbrev pub three_parts : List Text → Checked Parts
three_parts (h ∷ p ∷ s ∷ []) = passed (record { header = h; payload = p; signature = s })
three_parts ts = failed invalid_token_format

-- What a token says before its signature is looked at.
pub record Statement : Type 0 where
  pub parts : Parts
  pub kid : Text
  pub claims : AccessClaims

module _ (lower_rune : ℕ → ℕ) (decode : Text → Option (List ℕ))
    (parse_pem : Text → Option PublicKey) (parse_certs_json : List ℕ → Option CertResponse)
    (read_header : List ℕ → Option AccessJwtHeader)
    (read_payload : List ℕ → Option (AudienceJson × AccessClaims)) (sha256 : Text → List ℕ)
    (verifies : PublicKey → List ℕ → List ℕ → Bool) where
  read_access_header : Text → Checked AccessJwtHeader
  read_access_header t = do
    bytes ← or_fail (decode t) decode_header
    header ← or_fail (read_header bytes) parse_header
    refuse_if (not (text_eq header.alg (codes "RS256"))) unsupported_alg
    refuse_if (is_empty header.kid) missing_key_id
    passed header

  valid_claims : ℕ → AccessVerifier → AccessClaims → Checked AccessClaims
  valid_claims now v claims = do validate_claims lower_rune now v claims; passed claims

  abbrev with_audience : AudienceJson × AccessClaims → List Text → AccessClaims
  with_audience parsed audience = record parsed.1 { audience = audience }

  read_claims : ℕ → AccessVerifier → Text → Checked AccessClaims
  unfolding valid_claims
  read_claims now v t = do
    bytes ← or_fail (decode t) decode_payload
    parsed ← or_fail (read_payload bytes) parse_payload
    audience ← unmarshal_audience parsed.0
    valid_claims now v (with_audience parsed audience)

  unfoldable pub read_statement : ℕ → AccessVerifier → Text → Checked Statement
  unfolding read_access_header read_claims
  read_statement now v token = do
    parts ← three_parts (split b'.' token)
    header ← read_access_header parts.header
    claims ← read_claims now v parts.payload
    passed (record { parts = parts; kid = header.kid; claims = claims })

  abbrev pub signed_text : Parts → Text
  signed_text p = p.header ++ b'.' ∷ p.payload

  unfoldable pub check_signature : Statement → PublicKey → Checked AccessClaims
  check_signature s key = do
    signature ← or_fail (decode s.parts.signature) decode_signature
    refuse_if (not (verifies key (sha256 (signed_text s.parts)) signature)) invalid_signature
    passed s.claims

  with_key : Statement → AccessVerifier × Checked PublicKey → AccessVerifier × Checked AccessClaims
  unfolding check_signature
  with_key s (v, key) = (v, key >>= check_signature s)

  with_statement :
      ℕ → Fetched → AccessVerifier → Checked Statement → AccessVerifier × Checked AccessClaims
  unfolding with_key
  with_statement clock fetched v (failed why) = (v, failed why)
  with_statement clock fetched v (passed s) =
      with_key s (lookup_key decode parse_pem parse_certs_json clock fetched s.kid v)

  unfoldable pub verify :
      ℕ → ℕ → Fetched → Text → AccessVerifier → AccessVerifier × Checked AccessClaims
  unfolding read_statement with_statement
  verify now clock fetched token v = with_statement clock fetched v (read_statement now v token)

  -- The signature is good under a key that the verifier holds for the token's key ID.
  abbrev pub IsSigned : Statement → AccessVerifier → Type 0
  IsSigned s v =
      (key : PublicKey) × (signature : List ℕ) × (find_key s.kid v.keys ≡ some key)
      × (decode s.parts.signature ≡ some signature)
      × (verifies key (sha256 (signed_text s.parts)) signature ≡ true)

  abbrev pub Verified :
      ℕ → ℕ → Text → AccessVerifier → AccessVerifier × Checked AccessClaims → Type 0
  Verified now clock token v (v', failed why) = Unit {0}
  Verified now clock token v (v', passed claims) =
      Accepts lower_rune now v claims
      × (is_outdated clock v'.fetched_at ≡ false)
      × ((s : Statement) × (read_statement now v token ≡ passed s)
          × (s.claims ≡ claims)
          × IsSigned s v')

  valid_claims-Accepts :
      (now : ℕ) (v : AccessVerifier) (claims : AccessClaims)
      → Ensures (Accepts lower_rune now v) (valid_claims now v claims)
  unfolding valid_claims
  valid_claims-Accepts now v claims =
      Ensures-then {m = validate_claims lower_rune now v claims}
        (λ valid. ensures_passed claims ((validate_claims_iff lower_rune now v claims).0 valid))

  read_claims-Accepts :
      (now : ℕ) (v : AccessVerifier) (t : Text)
      → Ensures (Accepts lower_rune now v) (read_claims now v t)
  unfolding read_claims
  read_claims-Accepts now v t =
      let judge : AudienceJson × AccessClaims → Checked AccessClaims = λ parsed.
        unmarshal_audience parsed.0 >>= λ a. valid_claims now v (with_audience parsed a) in
      Ensures-bind {m = or_fail (decode t) decode_payload}
        {next = λ bytes. or_fail (read_payload bytes) parse_payload >>= judge}
        (λ bytes _.
          Ensures-bind {m = or_fail (read_payload bytes) parse_payload} {next = judge} (λ parsed _.
            Ensures-bind {m = unmarshal_audience parsed.0}
              {next = λ a. valid_claims now v (with_audience parsed a)}
              (λ a _. valid_claims-Accepts now v (with_audience parsed a))))

  read_statement-Accepts :
      (now : ℕ) (v : AccessVerifier) (token : Text)
      → Ensures (λ s. Accepts lower_rune now v s.claims) (read_statement now v token)
  unfolding read_statement
  read_statement-Accepts now v token =
      let stated : Parts → AccessJwtHeader → AccessClaims → Checked Statement =
        λ p h c. passed (record { parts = p; kid = h.kid; claims = c }) in
      Ensures-bind {m = three_parts (split b'.' token)}
        {next = λ p.
          read_access_header p.header >>= λ h. read_claims now v p.payload >>= stated p h}
        (λ p _.
          Ensures-bind {m = read_access_header p.header}
            {next = λ h. read_claims now v p.payload >>= stated p h}
            (λ h _.
              Ensures-bind {m = read_claims now v p.payload} {next = stated p h}
                (λ c e. ensures_passed _ (Ensures-elim (read_claims-Accepts now v p.payload) e))))

  check_signature-IsSigned :
      (s : Statement) (v : AccessVerifier) (key : PublicKey) (claims : AccessClaims)
      → find_key s.kid v.keys ≡ some key
      → check_signature s key ≡ passed claims
      → (s.claims ≡ claims) × IsSigned s v
  unfolding check_signature
  check_signature-IsSigned s v key claims found =
      Ensures-elim {P = λ c. (s.claims ≡ c) × IsSigned s v} (
        Ensures-bind {m = or_fail (decode s.parts.signature) decode_signature}
          {next = λ signature.
            refuse_if (not (verifies key (sha256 (signed_text s.parts)) signature))
              invalid_signature
            >> passed s.claims}
          (λ signature decoded.
            Ensures-then
              {m = refuse_if (not (verifies key (sha256 (signed_text s.parts)) signature))
                invalid_signature}
              (λ good.
                ensures_passed s.claims
                  (refl, (key, signature, found, ground arith, ground arith)))))

  -- Claims that `Verify` answers with are acceptable, stand in the token, and the token is signed,
  -- over its first two parts, with a key that was fetched for its key ID at most five minutes ago.
  pub verify-Verified :
      (now clock : ℕ) (fetched : Fetched) (token : Text) (v : AccessVerifier)
      → Verified now clock token v (verify now clock fetched token v)
  unfolding verify
  verify-Verified now clock fetched token v = go (read_statement now v token) refl
    where
      signed :
          (s : Statement) (r : AccessVerifier × Checked PublicKey)
          → read_statement now v token ≡ passed s
          → Known decode parse_pem parse_certs_json clock s.kid v r
          → Verified now clock token v (with_key s r)
      signed s (v', failed why) e k = tt
      signed s (v', passed key) e k = checked (check_signature s key) refl
        where
          checked :
              (c : Checked AccessClaims)
              → check_signature s key ≡ c
              → Verified now clock token v (v', c)
          checked (failed why) c = tt
          checked (passed claims) c =
              let b = check_signature-IsSigned s v' key claims k.0 c in
              (
                subst (Accepts lower_rune now v) b.0
                    (Ensures-elim (read_statement-Accepts now v token) e),
                k.1,
                (s, e, b.0, b.1),
              )

      go :
          (r : Checked Statement)
          → read_statement now v token ≡ r
          → Verified now clock token v (with_statement clock fetched v r)
      go (failed why) e = tt
      go (passed s) e =
          signed s _ e (lookup_key-Known decode parse_pem parse_certs_json clock fetched s.kid v)
