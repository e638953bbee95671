-- ===== src/Releases.antt =====
-- server/internal/db/releases.go: the table of releases of the worker. `now` is the database's
-- clock and `uuid` the ID that `gen_random_uuid()` gives.
use mini_control_public.Prelude.{
  ℕ, ◌||◌, List, [], ◌∷◌, ◌++◌, Option, none, some, find_if, any_of, order_by, ltb, if◌then◌else◌,
}
use mini_control_public.Text.{Text, text_eq}
use mini_control_public.Db.{Result, or_not_found}

pub record Release : Type 0 where
  pub id : Text
  pub version : Text
  pub sha256 : Text
  pub size_bytes : ℕ
  pub signing_identity : Text
  pub file_path : Text
  pub uploaded_at : ℕ

-- `ErrReleaseVersionExists`, which stands for every unique constraint of the table.
pub data Inserted : Type 0 where
  inserted : Release → List Release → Inserted
  release_version_exists : Inserted

unfoldable pub insert_release : ℕ → Text → Release → List Release → Inserted
insert_release now uuid r rs =
    if any_of (λ x. text_eq x.id uuid || text_eq x.version r.version) rs
    then release_version_exists
    else let n = record r { id = uuid; uploaded_at = now } in inserted n (rs ++ n ∷ [])

abbrev first_of : List Release → Option Release
first_of [] = none
first_of (r ∷ rs) = some r

-- `ORDER BY uploaded_at DESC LIMIT 1`.
unfoldable pub get_latest_release : List Release → Result Release
get_latest_release rs =
    or_not_found (first_of (order_by (λ a b. ltb b.uploaded_at a.uploaded_at) rs))

unfoldable pub get_release_by_version : List Release → Text → Result Release
get_release_by_version rs version = or_not_found (find_if (λ r. text_eq r.version version) rs)
