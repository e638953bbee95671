-- ===== src/Examples/Access.antt =====
-- Access tokens: one that is accepted, with a decoding that leaves the text as it is.
use mini_control_public.Prelude.{ℕ, ◌≡◌, refl, Bool, true, List, [], ◌∷◌, Option, none, some}
use mini_control_public.Text.{Text, codes, text_eq}
use mini_control_public.Access.{
  pos, PublicKey, AccessVerifier, AccessJwtHeader, AccessClaims, AudienceJson, aud_text, passed,
  validate_claims,
}
use mini_control_public.Access.Claims.{Accepts, validate_claims_iff}
use mini_control_public.Access.Keys.{CertResponse, Fetched, response}
use mini_control_public.Access.Verified.{verify, Verified, verify-Verified}
use mini_control_public.Guards.{access_token, require_access_auth}
use mini_control_public.Guards.Login.{LoggedIn, verify_now, require_access-LoggedIn}

abbrev same_rune : ℕ → ℕ
same_rune c = c

abbrev plain : Text → Option (List ℕ)
plain t = some t

abbrev a_key : PublicKey
a_key = record { n = 15; e = 3 }

abbrev the_key : Text → Option PublicKey
the_key t = some a_key

abbrev the_certs : List ℕ → Option CertResponse
the_certs b = some (record { public_certs = (codes "k1", codes "pem") ∷ []; keys = [] })

abbrev the_header : List ℕ → Option AccessJwtHeader
the_header b = some (record { alg = codes "RS256"; kid = codes "k1"; typ = codes "JWT" })

abbrev the_claims : AccessClaims
the_claims = record {
  audience = codes "app1" ∷ [];
  email = codes "a@x.io";
  expires = pos 100;
  issued_at = pos 10;
  not_before = pos 70;
  issuer = codes "https://x";
  type = codes "app";
  subject = codes "s1";
}

abbrev the_payload : List ℕ → Option (AudienceJson × AccessClaims)
the_payload b = some (aud_text (codes "app1"), the_claims)

abbrev the_hash : Text → List ℕ
the_hash t = t

abbrev any_signature : PublicKey → List ℕ → List ℕ → Bool
any_signature key hash signature = true

abbrev fresh_verifier : AccessVerifier
fresh_verifier = record {
  audience = codes "app1";
  issuer_url = codes "https://x";
  certs_url = codes "https://x/certs";
  allowed_email_domain = [];
  keys = [];
  fetched_at = none;
}

abbrev filled_verifier : AccessVerifier
filled_verifier = record fresh_verifier { keys = (codes "k1", a_key) ∷ []; fetched_at = some 1000 }

abbrev certs_reply : Fetched
certs_reply = response 200 (some [])

validate_claims_iff_example : Accepts same_rune 20 fresh_verifier the_claims
unfolding validate_claims text_eq
validate_claims_iff_example = (validate_claims_iff same_rune 20 fresh_verifier the_claims).0 ran
  where
    ran : validate_claims same_rune 20 fresh_verifier the_claims ≡ passed tt
    ran = refl

verify-Verified_example :
    Verified same_rune plain the_key the_certs the_header the_payload the_hash any_signature 20 1000
      (codes "h.p.s")
      fresh_verifier
      (verify same_rune plain the_key the_certs the_header the_payload the_hash any_signature 20
        1000 certs_reply
        (codes "h.p.s")
        fresh_verifier)
verify-Verified_example =
    verify-Verified same_rune plain the_key the_certs the_header the_payload the_hash any_signature
      20 1000 certs_reply (codes "h.p.s") fresh_verifier

require_access-LoggedIn_example :
    LoggedIn same_rune plain the_key the_certs the_header the_payload the_hash any_signature 20 1000
      certs_reply
      (access_token (codes " h.p.s ") none)
      []
      fresh_verifier
      (require_access_auth
        (verify_now same_rune plain the_key the_certs the_header the_payload the_hash any_signature
          20 1000 certs_reply)
        50
        (codes "m")
        (codes " h.p.s ")
        none
        []
        fresh_verifier)
require_access-LoggedIn_example =
    require_access-LoggedIn same_rune plain the_key the_certs the_header the_payload the_hash
      any_signature 20 1000 certs_reply 50 (codes "m") (codes " h.p.s ") none [] fresh_verifier
