-- ===== src/Guards/Login.antt =====
-- Who is logged in by an access token.
use mini_control_public.Prelude.{
  ℕ, ◌≡◌, subst, refl, Bool, List, [], ◌∷◌, Option, Bool-cases, inl, inr,
}
use mini_control_public.Text.{Text, text_eq}
use mini_control_public.Model.{Member}
use mini_control_public.Db.{Result, ok, err}
use mini_control_public.Http.{is_empty}
use mini_control_public.Members.{upsert_member_from_access, get_member_by_access_sub}
use mini_control_public.Members.Upsert.{Known, upsert-Known}
use mini_control_public.Access.{
  AccessVerifier, AccessClaims, Checked, passed, failed, PublicKey, AccessJwtHeader, AudienceJson,
}
use mini_control_public.Access.Claims.{Accepts}
use mini_control_public.Access.Keys.{CertResponse, Fetched}
use mini_control_public.Access.Verified.{
  Statement, read_statement, IsSigned, verify, Verified, verify-Verified,
}
use mini_control_public.Guards.{
  Guarded, let_in, turned_away, access_token, Logins, log_in, admit_claims, require_access_auth,
}

module _ (lower_rune : ℕ → ℕ) (decode : Text → Option (List ℕ))
    (parse_pem : Text → Option PublicKey) (parse_certs_json : List ℕ → Option CertResponse)
    (read_header : List ℕ → Option AccessJwtHeader)
    (read_payload : List ℕ → Option (AudienceJson × AccessClaims)) (sha256 : Text → List ℕ)
    (verifies : PublicKey → List ℕ → List ℕ → Bool) (unix_now clock : ℕ) (fetched : Fetched) where
  -- `Verify` at the time of the request.
  abbrev pub verify_now : Text → AccessVerifier → AccessVerifier × Checked AccessClaims
  verify_now token v =
      verify lower_rune decode parse_pem parse_certs_json read_header read_payload sha256 verifies
        unix_now clock fetched token v

  -- A member who is let in is the one of the subject in a signed token with claims that are accepted.
  abbrev pub LoggedIn : Text → List Member → AccessVerifier → Guarded Member × Logins → Type 0
  LoggedIn token ms v (turned_away status why, (ms', v')) = ms' ≡ ms
  LoggedIn token ms v (let_in m, (ms', v')) =
      (claims : AccessClaims) × Accepts lower_rune unix_now v claims
      × (m.access_sub ≡ claims.subject)
      × (m.email ≡ claims.email)
      × (get_member_by_access_sub ms' claims.subject ≡ ok m)
      × ((s : Statement) × (read_statement lower_rune decode parse_pem parse_certs_json read_header
              read_payload sha256 verifies unix_now v token
            ≡ passed s)
          × (s.claims ≡ claims)
          × IsSigned lower_rune decode parse_pem parse_certs_json read_header read_payload sha256
              verifies s v')

  -- Some other subject, by which the table is looked up too.
  upsert_found :
      (now : ℕ) (uuid sub email : Text) (ms ms' : List Member) (m : Member)
      → upsert_member_from_access now uuid sub email ms ≡ ok (m, ms')
      → (m.access_sub ≡ sub) × (m.email ≡ email) × (get_member_by_access_sub ms' sub ≡ ok m)
  upsert_found now uuid [] email ms ms' m e =
      let k : Known ms [] (0 ∷ []) email (ok (m, ms')) =
        subst (Known ms [] (0 ∷ []) email) e
          (upsert-Known now uuid [] email (0 ∷ []) ms (unfold text_eq in refl)) in
      (k.0, k.1, k.2)
  upsert_found now uuid (c ∷ cs) email ms ms' m e =
      let k : Known ms (c ∷ cs) [] email (ok (m, ms')) =
        subst (Known ms (c ∷ cs) [] email) e
          (upsert-Known now uuid (c ∷ cs) email [] ms (unfold text_eq in refl)) in
      (k.0, k.1, k.2)

  log_in-LoggedIn :
      (now : ℕ) (uuid token : Text) (ms : List Member) (v v' : AccessVerifier)
      (claims : AccessClaims)
      → Verified lower_rune decode parse_pem parse_certs_json read_header read_payload sha256
          verifies unix_now clock token v
          (v', passed claims)
      → (r : Result (Member × List Member))
      → upsert_member_from_access now uuid claims.subject claims.email ms ≡ r
      → LoggedIn token ms v (log_in v' ms r)
  log_in-LoggedIn now uuid token ms v v' claims good (err e) h = refl
  log_in-LoggedIn now uuid token ms v v' claims good (ok (m, ms')) h =
      let (sub, email, found) = upsert_found now uuid claims.subject claims.email ms ms' m h in
      (claims, good.0, sub, email, found, good.2)

  admit-LoggedIn :
      (now : ℕ) (uuid token : Text) (ms : List Member) (v : AccessVerifier)
      (r : AccessVerifier × Checked AccessClaims)
      → Verified lower_rune decode parse_pem parse_certs_json read_header read_payload sha256
          verifies unix_now clock token v r
      → LoggedIn token ms v (admit_claims verify_now now uuid ms r)
  admit-LoggedIn now uuid token ms v (v', failed why) good = refl
  admit-LoggedIn now uuid token ms v (v', passed claims) good =
      log_in-LoggedIn now uuid token ms v v' claims good _ refl

  -- A request is let in only as the member of the subject in its access token, whose address is then
  -- the token's; the token is signed with a key of the verifier, and its claims are accepted. A
  -- request that is turned away leaves the members as they were.
  pub require_access-LoggedIn :
      (now : ℕ) (uuid header : Text) (cookie : Option Text) (ms : List Member) (v : AccessVerifier)
      → LoggedIn
          (access_token header cookie)
          ms
          v
          (require_access_auth verify_now now uuid header cookie ms v)
  unfolding require_access_auth
  require_access-LoggedIn now uuid header cookie ms v =
      elim (Bool-cases (is_empty (access_token header cookie))) [
        | inl missing ↦ rw missing refl
        | inr there ↦ rw there (
            admit-LoggedIn now uuid (access_token header cookie) ms v _ (
              verify-Verified lower_rune decode parse_pem parse_certs_json read_header read_payload
                sha256 verifies unix_now clock fetched (access_token header cookie) v))
      ]
