-- ===== src/Guards.antt =====
-- server/internal/api/rest/auth.go, and the guards in host.go and handler.go: what stands in front of
-- the handlers. A guard lets a request through, with what it puts into the context, or answers it.
pub mod Login
use mini_control_public.Prelude.{ℕ, Bool, not, List, Option, none, some, if◌then◌else◌}
use mini_control_public.Text.{Text, codes, text_eq, trim_space}
use mini_control_public.Model.{Worker, Member}
use mini_control_public.Db.{Db, Result, ok, err}
use mini_control_public.Http.{
  Message, is_empty, bearer_token, tokens_match, unauthorized, access_auth_not_configured,
  missing_access_token, invalid_access_token, failed_to_load_member, worker_id_mismatch,
  page_not_found,
}
use mini_control_public.Host.{Heading, matches_host}
use mini_control_public.WorkerTokens.{authenticate_worker_token, touch_worker_token_usage}
use mini_control_public.Members.{upsert_member_from_access}
use mini_control_public.Access.{AccessVerifier, AccessClaims, Checked, passed, failed}

-- A request that goes on to the handler, or the status and the message of the answer.
pub data Guarded {ℓ} (A : Type ℓ) : Type ℓ where
  let_in : A → Guarded A
  turned_away : ℕ → Message → Guarded A

-- `requireAdminAuth` and `requireEnrollmentAuth`, by the token that is configured.
unfoldable pub require_token : Text → Text → Guarded (Unit {0})
require_token configured authorization =
    if tokens_match configured (bearer_token authorization)
    then let_in tt
    else turned_away 401 unauthorized

module _ (lower_rune : ℕ → ℕ) (parse_url : Text → Option Text) where
  -- `requireBrowserHost` and `requireWorkerHost`, by the host that is configured.
  unfoldable pub require_host : Text → Heading → Guarded (Unit {0})
  require_host configured r =
      if matches_host lower_rune parse_url configured r
      then let_in tt
      else turned_away 404 page_not_found

-- `authenticatedWorker`.
pub record AuthenticatedWorker : Type 0 where
  pub id : Text
  pub hardware_uuid : Text

module _ (sha256 : Text → List ℕ) where
  abbrev admit_worker : ℕ → Db → Result Worker → Guarded AuthenticatedWorker × Db
  admit_worker now db (err e) = (turned_away 401 unauthorized, db)
  admit_worker now db (ok w) = (
    let_in (record { id = w.id; hardware_uuid = w.hardware_uuid }),
    touch_worker_token_usage now w.id db,
  )

  unfoldable pub require_worker_auth : ℕ → Text → Db → Guarded AuthenticatedWorker × Db
  require_worker_auth now authorization db =
      admit_worker now db (authenticate_worker_token sha256 db (bearer_token authorization))

-- `requireCurrentWorker` and `requireWorkerPathMatch`.
unfoldable pub require_worker_path_match :
    Option AuthenticatedWorker → Text → Guarded AuthenticatedWorker
require_worker_path_match none path_id = turned_away 401 unauthorized
require_worker_path_match (some w) path_id =
    if text_eq path_id w.id then let_in w else turned_away 403 worker_id_mismatch

-- The header `Cf-Access-Jwt-Assertion`, or else the cookie `CF_Authorization`, if there is one.
unfoldable pub access_token : Text → Option Text → Text
access_token header none = trim_space header
access_token header (some cookie) =
    if is_empty (trim_space header) then trim_space cookie else trim_space header

-- The members, and the verifier with its keys.
abbrev pub Logins : Type 0
Logins = List Member × AccessVerifier

abbrev pub log_in :
    AccessVerifier → List Member → Result (Member × List Member) → Guarded Member × Logins
log_in v ms (err e) = (turned_away 500 failed_to_load_member, (ms, v))
log_in v ms (ok (m, ms')) = (let_in m, (ms', v))

module _ (verify_token : Text → AccessVerifier → AccessVerifier × Checked AccessClaims) where
  abbrev pub admit_claims :
      ℕ → Text → List Member → AccessVerifier × Checked AccessClaims → Guarded Member × Logins
  admit_claims now uuid ms (v, failed why) = (turned_away 401 invalid_access_token, (ms, v))
  admit_claims now uuid ms (v, passed claims) =
      log_in v ms (upsert_member_from_access now uuid claims.subject claims.email ms)

  abbrev pub admit_token : ℕ → Text → List Member → AccessVerifier → Text → Guarded Member × Logins
  admit_token now uuid ms v token =
      if is_empty token
      then (turned_away 401 missing_access_token, (ms, v))
      else admit_claims now uuid ms (verify_token token v)

  -- `requireAccessAuth` with a verifier; without one the answer is 503.
  unfoldable pub require_access_auth :
      ℕ → Text → Text → Option Text → List Member → AccessVerifier → Guarded Member × Logins
  require_access_auth now uuid header cookie ms v =
      admit_token now uuid ms v (access_token header cookie)

  unfoldable pub require_access :
      ℕ
      → Text
      → Text
      → Option Text
      → List Member
      → Option AccessVerifier
      → Guarded Member × (List Member × Option AccessVerifier)
  unfolding require_access_auth
  require_access now uuid header cookie ms none =
      (turned_away 503 access_auth_not_configured, (ms, none))
  require_access now uuid header cookie ms (some v) =
      let (g, (ms', v')) = require_access_auth now uuid header cookie ms v in (g, (ms', some v'))
