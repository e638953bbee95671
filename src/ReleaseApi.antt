-- ===== src/ReleaseApi.antt =====
-- server/internal/api/rest/releases.go: the handlers over the release store, which is missing where
-- releases are not configured. The parameters are those of the store.
pub mod Served
use mini_control_public.Prelude.{
  ℕ, Bool, true, false, not, List, [], Option, none, some, if◌then◌else◌,
}
use mini_control_public.Text.{Text}
use mini_control_public.Db.{ok, err, Result}
use mini_control_public.Http.{
  Reply, reply, refuse, is_empty, release_management_not_configured, invalid_multipart_form,
  version_is_required, invalid_version, binary_file_is_required, binary_body_is_required,
  release_version_already_exists, upload_failed, no_releases_available, version_not_found,
  release_unavailable, page_not_found,
}
use mini_control_public.Releases.{Release, get_latest_release, get_release_by_version}
use mini_control_public.ReleaseStore.{
  Store, Upload, stored, not_stored, UploadError, release_exists, validate_version, upload,
  binary_path,
}

-- A multipart form with its version and its file, if that is one.
pub data Form : Type 0 where
  no_form : Form
  form : Text → Option (List ℕ) → Form

-- A file that is served: its content, its hash and its version.
pub record Download : Type 0 where
  pub path : Text
  pub sha256 : Text
  pub version : Text

abbrev pub is_release_exists : UploadError → Bool
is_release_exists release_exists = true
is_release_exists e = false

abbrev pub answer_upload : Upload Release × Store → Reply Release × Option Store
answer_upload (stored r, st) = (reply 201 r, some st)
answer_upload (not_stored e, st) = (
  if is_release_exists e
      then refuse 409 release_version_already_exists
      else refuse 400 upload_failed,
  some st,
)

unfoldable pub handle_release_latest : Option Store → Reply Release
handle_release_latest none = refuse 404 page_not_found
handle_release_latest (some st) = elim (get_latest_release st.releases) [
  | err e ↦ refuse 404 no_releases_available
  | ok r ↦ reply 200 r
]

module _ (storage_path : Text) (join : Text → Text → Text) (rel : Text → Text → Option Text)
    (hash : List ℕ → List ℕ) (validate : List ℕ → Text → Bool) (signer : List ℕ → Option Text) where
  abbrev pub serve : Release → Reply Download
  serve r = elim (binary_path storage_path join rel hash validate signer r) [
    | none ↦ refuse 500 release_unavailable
    | some path ↦ reply 200 (record { path = path; sha256 = r.sha256; version = r.version })
  ]

  unfoldable pub handle_release_download : Text → Option Store → Reply Download
  handle_release_download version none = refuse 404 page_not_found
  handle_release_download version (some st) =
      if not (validate_version version)
      then refuse 400 invalid_version
      else elim (get_release_by_version st.releases version) [
        | err e ↦ refuse 404 version_not_found
        | ok r ↦ serve r
      ]

  module _ (now : ℕ) (uuid required : Text) where
    abbrev pub store_upload : Text → List ℕ → Store → Reply Release × Option Store
    store_upload version content st =
        answer_upload
          (upload storage_path join rel hash validate signer now uuid required version content st)

    abbrev pub upload_file : Text → Option (List ℕ) → Store → Reply Release × Option Store
    upload_file version none st = (refuse 400 binary_file_is_required, some st)
    upload_file version (some content) st = store_upload version content st

    unfoldable pub handle_release_upload : Form → Option Store → Reply Release × Option Store
    handle_release_upload f none = (refuse 503 release_management_not_configured, none)
    handle_release_upload no_form (some st) = (refuse 400 invalid_multipart_form, some st)
    handle_release_upload (form version file) (some st) =
        if is_empty version
        then (refuse 400 version_is_required, some st)
        else if not (validate_version version)
        then (refuse 400 invalid_version, some st)
        else upload_file version file st

    unfoldable pub handle_release_upload_binary :
        Text → Option (List ℕ) → Option Store → Reply Release × Option Store
    handle_release_upload_binary version body none =
        (refuse 503 release_management_not_configured, none)
    handle_release_upload_binary version none (some st) = (
      if not (validate_version version)
          then refuse 400 invalid_version
          else refuse 400 binary_body_is_required,
      some st,
    )
    handle_release_upload_binary version (some content) (some st) =
        if not (validate_version version)
        then (refuse 400 invalid_version, some st)
        else store_upload version content st
