-- ===== src/WorkerTokens/Issued.antt =====
-- Who is authenticated after a token was issued.
use mini_control_public.Prelude.{
  ℕ, ◌≡◌, refl, ap, true, false, ◌&&◌, not, List, [], ◌∷◌, some, find_if, update_where, arith, All,
}
use mini_control_public.Text.{Text, text_eq, text_eq_refl}
use mini_control_public.Model.{Worker}
use mini_control_public.Db.{Db, ok, or_not_found}
use mini_control_public.WorkerTokens.{
  accepts, is_worker, give, hash_worker_token, authenticate_worker_token, issue_worker_token,
  generate_worker_token,
}

pub find_if-give :
    (now : ℕ) (i h : Text) (ws : List Worker) (w : Worker)
    → All (λ x. accepts h x ≡ false) ws
    → find_if (is_worker i) ws ≡ some w
    → find_if (accepts h) (update_where (is_worker i) (give now h) ws) ≡ some (give now h w)
unfolding update_where
find_if-give now i h [] w free e = cc e
find_if-give now i h (x ∷ ws) w free e =
    ground (arith, free.0, text_eq_refl h, find_if-give now i h ws w free.1)

find_if-others :
    (now : ℕ) (i h k : Text) (ws : List Worker)
    → text_eq h k ≡ false
    → find_if (accepts k) (update_where (is_worker i) (give now h) ws)
      ≡ find_if (λ w. accepts k w && not (is_worker i w)) ws
unfolding update_where
find_if-others now i h k [] other = refl
find_if-others now i h k (x ∷ ws) other = ground (arith, other, find_if-others now i h k ws other)

module _ (sha256 : Text → List ℕ) (now : ℕ) (token_bytes : List ℕ) (i : Text) (db : Db) where
  -- The token, and the tables that hold its hash.
  abbrev pub issued : Text × Db
  issued = (
    generate_worker_token token_bytes,
    record db {
      workers =
          update_where (is_worker i)
            (give now (hash_worker_token sha256 (generate_worker_token token_bytes))) db.workers;
    },
  )

  -- Where the random bytes are read and the update is executed, a token is issued. The token that is
  -- issued to a worker of the table authenticates that worker, if no worker of
  -- the table is accepted with its hash before; a token with another hash authenticates whom it did
  -- among the other workers, so the worker's earlier token is accepted no more.
  pub authenticate-issue :
      (w : Worker) (t : Text)
      → All (λ x. accepts (hash_worker_token sha256 issued.0) x ≡ false) db.workers
      → find_if (is_worker i) db.workers ≡ some w
      → text_eq (hash_worker_token sha256 issued.0) (hash_worker_token sha256 t) ≡ false
      → (issue_worker_token sha256 now (some token_bytes) true i db ≡ ok issued)
        × (authenticate_worker_token sha256 issued.1 issued.0
            ≡ ok (give now (hash_worker_token sha256 issued.0) w))
        × (authenticate_worker_token sha256 issued.1 t
            ≡ or_not_found (
                find_if
                  (λ x. accepts (hash_worker_token sha256 t) x && not (is_worker i x))
                  db.workers))
  unfolding authenticate_worker_token issue_worker_token
  authenticate-issue w t free e other = (
    refl,
    ap or_not_found (find_if-give now i _ db.workers w free e),
    ap or_not_found (find_if-others now i _ _ db.workers other),
  )
