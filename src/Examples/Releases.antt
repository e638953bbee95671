-- ===== src/Examples/Releases.antt =====
-- Uploads of a release.
use mini_control_public.Prelude.{
  ℕ, ◌≡◌, refl, Bool, true, List, [], ◌∷◌, ◌++◌, Option, none, some, delete_where,
}
use mini_control_public.Text.{Text, codes, text_eq, hex_encode}
use mini_control_public.Strings.{has_prefix}
use mini_control_public.Db.{ok}
use mini_control_public.Releases.{Release, get_release_by_version, insert_release}
use mini_control_public.ReleaseStore.{
  Store, stored, not_stored, release_exists, check_upload, finish_upload, upload, release_of,
  validate_version, is_within_storage, release_paths, record_release,
}
use mini_control_public.ReleaseStore.Stored.{find_file, Finished, upload-Finished}
use mini_control_public.ReleaseStore.Race.{race-Lost}
use mini_control_public.Http.{reply}
use mini_control_public.ReleaseStore.{go_on}
use mini_control_public.ReleaseApi.{handle_release_download}
use mini_control_public.ReleaseApi.Served.{download-upload}

abbrev pub below : Text → Text → Text
below dir name = dir ++ b'/' ∷ name

abbrev pub inside : Text → Text → Option Text
inside dir path = some path

abbrev pub plain : List ℕ → List ℕ
plain content = content

abbrev anyone : List ℕ → Text → Bool
anyone content required = true

abbrev unsigned : List ℕ → Option Text
unsigned content = none

abbrev pub nothing : Store
nothing = record { files = []; releases = [] }

abbrev path_of : Text
path_of = codes "r/1.0/minicontrol-worker"

upload-Finished_example :
    Finished (codes "1.0") path_of (7 ∷ []) (hex_encode (7 ∷ [])) (codes "r/0.9") nothing (
      upload
        (codes "r")
        below
        inside
        plain
        anyone
        unsigned
        50
        (codes "u")
        []
        (codes "1.0")
        (7 ∷ [])
        nothing)
unfolding text_eq
upload-Finished_example =
    upload-Finished (codes "r") below inside plain anyone unsigned 50 (codes "u") [] (codes "1.0")
      (7 ∷ []) (codes "r/0.9") nothing refl

abbrev row : ℕ → Release
row byte =
    release_of (codes "r") below inside plain anyone unsigned (codes "1.0") (byte ∷ []) path_of []

abbrev kept : Release
kept = record (row 7) { id = codes "u"; uploaded_at = 50 }

passes :
    (check_upload (codes "r") below inside plain anyone unsigned [] (codes "1.0") (7 ∷ []) nothing
      ≡ stored (row 7))
    × (check_upload (codes "r") below inside plain anyone unsigned [] (codes "1.0") (8 ∷ []) nothing
        ≡ stored (row 8))
unfolding check_upload release_paths validate_version is_within_storage has_prefix text_eq
    get_release_by_version
passes = (refl, refl)

abbrev one : Store
one = record { files = (path_of, 7 ∷ []) ∷ []; releases = kept ∷ [] }

stores :
    finish_upload
      (codes "r")
      below
      inside
      plain
      anyone
      unsigned
      50
      (codes "u")
      (7 ∷ [])
      (row 7)
      nothing
    ≡ (stored kept, one)
unfolding finish_upload record_release insert_release delete_where
stores = refl

race-Lost_example :
    let (out, after) =
      finish_upload
        (codes "r")
        below
        inside
        plain
        anyone
        unsigned
        60
        (codes "v")
        (8 ∷ [])
        (row 8)
        one in
    (out ≡ not_stored release_exists)
    × (get_release_by_version after.releases (codes "1.0") ≡ ok kept)
    × (find_file path_of after ≡ none)
race-Lost_example =
    race-Lost (codes "r") below inside plain anyone unsigned 50 60 (codes "u") (codes "v") []
      (codes "1.0") (7 ∷ []) (8 ∷ []) (row 7) (row 8) kept nothing one passes.0 passes.1 stores

uploads :
    upload
      (codes "r")
      below
      inside
      plain
      anyone
      unsigned
      50
      (codes "u")
      []
      (codes "1.0")
      (7 ∷ [])
      nothing
    ≡ (stored kept, one)
unfolding upload check_upload release_paths validate_version is_within_storage has_prefix text_eq
    get_release_by_version finish_upload record_release insert_release delete_where go_on
uploads = refl

download-upload_example :
    (handle_release_download (codes "r") below inside plain anyone unsigned (codes "1.0") (some one)
      ≡ reply 200 (record { path = path_of; sha256 = hex_encode (7 ∷ []); version = codes "1.0" }))
    × (find_file path_of one ≡ some (path_of, 7 ∷ []))
download-upload_example =
    download-upload (codes "r") below inside plain anyone unsigned 50 (codes "u") [] (codes "1.0")
      (7 ∷ []) kept nothing one refl uploads
