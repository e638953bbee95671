-- ===== src/Hostnames.antt =====
-- server/internal/db/postgres.go: the host names of Macs, and server/internal/model/worker.go: the
-- IDs of workers. `sha256` is the hash of that name.
pub mod Fresh
use mini_control_public.Prelude.{
  ℕ, ◌+◌, Bool, List, [], ◌∷◌, ◌++◌, Option, none, some, ltb, leb, if◌then◌else◌, find_if, any_of,
  update_where, take,
}
use mini_control_public.Text.{Text, codes, text_eq, hex_encode}
use mini_control_public.Strings.{cut_prefix}
use mini_control_public.Decimal.{digits, decimal}
use mini_control_public.Model.{Worker, offline}
use mini_control_public.Db.{Db, Result, ok, err, failure, ◌>>=◌}

-- The largest value of Postgres' INT.
abbrev pub int_max : ℕ
int_max = 2_147_483_647

-- The k of a host name mac-k.
abbrev pub number_behind : Option Text → Option ℕ
number_behind none = none
number_behind (some rest) = digits rest

unfoldable pub mac_number : Text → Option ℕ
mac_number hostname = number_behind (cut_prefix hostname (codes "mac-"))

-- The `CASE` of the query: a number that is no INT ends the query.
abbrev pub number_or_zero : Option ℕ → Result ℕ
number_or_zero none = ok 0
number_or_zero (some k) = if leb k int_max then ok k else err failure

abbrev pub max_of : ℕ → ℕ → ℕ
max_of a b = if ltb a b then b else a

-- `COALESCE(MAX(…), 0)`.
unfoldable pub max_number : List Worker → Result ℕ
unfolding mac_number
max_number [] = ok 0
max_number (w ∷ ws) = do
  k ← number_or_zero (mac_number w.hostname)
  rest ← max_number ws
  ok (max_of k rest)

-- `… + 1` is an INT again.
abbrev pub next_of : ℕ → Result ℕ
next_of k = if ltb k int_max then ok (k + 1) else err failure

-- `INSERT … ON CONFLICT (id) DO UPDATE SET hostname = EXCLUDED.hostname`.
unfoldable pub reserve : Worker → Db → Db
reserve n db = record db {
  workers =
      if any_of (λ w. text_eq w.id n.id) db.workers
      then update_where (λ w. text_eq w.id n.id) (λ w. record w { hostname = n.hostname })
          db.workers
      else db.workers ++ n ∷ [];
}

module _ (sha256 : Text → List ℕ) where
  unfoldable pub generate_worker_id : Text → Text
  generate_worker_id hardware_uuid = codes "w-" ++ hex_encode (take 6 (sha256 hardware_uuid))

  -- The row of a Mac that has a name and is not registered.
  abbrev pub reserved : ℕ → Text → Text → Worker
  reserved now hostname hardware_uuid = record {
    id = generate_worker_id hardware_uuid;
    hostname = hostname;
    hardware_uuid = hardware_uuid;
    cpu_cores = 0;
    memory_bytes = 0;
    tart_version = [];
    worker_version = [];
    pool_size = 2;
    base_image = codes "minictl-tahoe-base";
    status = offline;
    registered_at = now;
    last_heartbeat = none;
    auth_token_hash = none;
    auth_token_last_used_at = none;
    auth_token_revoked_at = none;
  }

  abbrev pub new_name : ℕ → Text → Db → ℕ → Result (Text × Db)
  new_name now hardware_uuid db next_num =
      let hostname = codes "mac-" ++ decimal next_num in
      ok (hostname, reserve (reserved now hostname hardware_uuid) db)

  -- What follows the first `SELECT`.
  unfoldable pub assign_to : ℕ → Text → Db → Option Worker → Result (Text × Db)
  assign_to now hardware_uuid db (some w) = ok (w.hostname, db)
  assign_to now hardware_uuid db none = do
    k ← max_number db.workers
    next_num ← next_of k
    new_name now hardware_uuid db next_num

  unfoldable pub assign_hostname : ℕ → Text → Db → Result (Text × Db)
  unfolding assign_to
  assign_hostname now hardware_uuid db =
      assign_to now hardware_uuid db
        (find_if (λ w. text_eq w.hardware_uuid hardware_uuid) db.workers)
