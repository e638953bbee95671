-- ===== src/WorkerTokens.antt =====
-- server/internal/db/worker_auth.go: the tokens by which workers authenticate. `sha256` is the hash
-- of that name, of the token's text.
pub mod Issued
use mini_control_public.Prelude.{
  Bool, true, false, ◌&&◌, not, ℕ, List, [], ◌∷◌, ◌++◌, Option, none, some, find_if, update_where,
  is_some, if◌then◌else◌,
}
use mini_control_public.Text.{Text, codes, text_eq, hex_encode}
use mini_control_public.Model.{Worker}
use mini_control_public.Db.{Db, Result, ok, err, failure, or_not_found}

-- `GenerateWorkerToken`, from the bytes that `rand.Read` gives.
unfoldable pub generate_worker_token : List ℕ → Text
generate_worker_token token_bytes = codes "wkt_" ++ hex_encode token_bytes

unfoldable pub get_worker_by_hardware_uuid : Db → Text → Result Worker
get_worker_by_hardware_uuid db uuid =
    or_not_found (find_if (λ w. text_eq w.hardware_uuid uuid) db.workers)

-- `auth_token_hash = $1`: NULL is equal to nothing.
abbrev pub has_hash : Text → Option Text → Bool
has_hash hash none = false
has_hash hash (some h) = text_eq h hash

-- `WHERE auth_token_hash = $1 AND auth_token_revoked_at IS NULL`.
abbrev pub accepts : Text → Worker → Bool
accepts hash w = has_hash hash w.auth_token_hash && not (is_some w.auth_token_revoked_at)

abbrev pub is_worker : Text → Worker → Bool
is_worker i w = text_eq w.id i

-- The row that `IssueWorkerToken` makes.
abbrev pub give : ℕ → Text → Worker → Worker
give now hash w = record w {
  auth_token_hash = some hash;
  auth_token_last_used_at = some now;
  auth_token_revoked_at = none;
}

abbrev pub touch : ℕ → Worker → Worker
touch now w = record w { auth_token_last_used_at = some now }

unfoldable pub touch_worker_token_usage : ℕ → Text → Db → Db
touch_worker_token_usage now i db = record db {
  workers = update_where (is_worker i) (touch now) db.workers;
}

-- What comes of a call of `IssueWorkerToken` from outside: the random bytes, or none where `rand.Read`
-- fails, and whether the update is executed.
pub record Issuing : Type 0 where
  pub token_bytes : Option (List ℕ)
  pub executes : Bool

module _ (sha256 : Text → List ℕ) where
  unfoldable pub hash_worker_token : Text → Text
  hash_worker_token token = hex_encode (sha256 token)

  unfoldable pub authenticate_worker_token : Db → Text → Result Worker
  unfolding hash_worker_token
  authenticate_worker_token db token =
      or_not_found (find_if (accepts (hash_worker_token token)) db.workers)

  -- By the fields of `Issuing`.
  unfoldable pub issue_worker_token : ℕ → Option (List ℕ) → Bool → Text → Db → Result (Text × Db)
  unfolding generate_worker_token hash_worker_token
  issue_worker_token now none executes i db = err failure
  issue_worker_token now (some token_bytes) false i db = err failure
  issue_worker_token now (some token_bytes) true i db =
      let token = generate_worker_token token_bytes in
      ok (
        token,
        record db {
          workers = update_where (is_worker i) (give now (hash_worker_token token)) db.workers;
        },
      )
