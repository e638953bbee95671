-- ===== src/Examples/Tokens.antt =====
-- A worker that gets a new token, and a member that logs in for the first time.
use mini_control_public.Prelude.{ℕ, ◌≡◌, refl, List, [], ◌∷◌, ◌&&◌, not, true, find_if, none, some}
use mini_control_public.Text.{Text, codes, text_eq, hex_encode}
use mini_control_public.Model.{Worker, active}
use mini_control_public.Db.{Db, ok, or_not_found}
use mini_control_public.WorkerTokens.{
  accepts, is_worker, give, hash_worker_token, authenticate_worker_token, generate_worker_token,
  issue_worker_token,
}
use mini_control_public.WorkerTokens.Issued.{issued, authenticate-issue}

abbrev pub holder : Worker
holder = record {
  id = codes "w";
  hostname = codes "mac-1";
  hardware_uuid = codes "u";
  cpu_cores = 10;
  memory_bytes = 34_359_738_368;
  tart_version = codes "2";
  worker_version = codes "1";
  pool_size = 2;
  base_image = codes "base";
  status = active;
  registered_at = 0;
  last_heartbeat = none;
  auth_token_hash = some (codes "00");
  auth_token_last_used_at = none;
  auth_token_revoked_at = none;
}

abbrev pub farm : Db
farm = record { members = []; workers = holder ∷ []; workstations = [] }

-- A stand-in for the hash, which tells these tokens apart.
abbrev pub plain_hash : Text → List ℕ
plain_hash t = t

abbrev renewed : Text × Db
renewed = issued plain_hash 9 (7 ∷ []) (codes "w") farm

authenticate-issue_example :
    (issue_worker_token plain_hash 9 (some (7 ∷ [])) true (codes "w") farm ≡ ok renewed)
    × (authenticate_worker_token plain_hash renewed.1 renewed.0
        ≡ ok (give 9 (hash_worker_token plain_hash renewed.0) holder))
    × (authenticate_worker_token plain_hash renewed.1 []
        ≡ or_not_found (
            find_if
              (λ x. accepts (hash_worker_token plain_hash []) x && not (is_worker (codes "w") x))
              farm.workers))
unfolding issue_worker_token hash_worker_token generate_worker_token hex_encode text_eq
authenticate-issue_example =
    authenticate-issue plain_hash 9 (7 ∷ []) (codes "w") farm holder [] (refl, tt) refl refl
