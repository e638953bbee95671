-- ===== src/ReleaseStore.antt =====
-- server/internal/release/store.go: releases of the worker, as files and as rows. `join` and `rel` are
-- filepath.Join and filepath.Rel, `sha256` is the hash, `validate` and `signer` stand for
-- ValidateSigningIdentity and ExtractSigningInfo. Errors of the disk are not modelled.
pub mod Stored
pub mod Race
use mini_control_public.Prelude.{
  ℕ, Bool, true, false, ◌&&◌, ◌||◌, not, List, [], ◌∷◌, ◌++◌, Option, none, some, leb, ◌==◌,
  if◌then◌else◌, any_of, length, delete_where,
}
use mini_control_public.Text.{Text, codes, text_eq, hex_encode}
use mini_control_public.Strings.{has_prefix}
use mini_control_public.Db.{Result, ok, err}
use mini_control_public.Http.{is_empty}
use mini_control_public.Releases.{
  Release, insert_release, inserted, release_version_exists, Inserted, get_release_by_version,
}

abbrev pub is_alphanumeric : ℕ → Bool
is_alphanumeric c =
    (leb b'A' c && leb c b'Z') || (leb b'a' c && leb c b'z') || (leb b'0' c && leb c b'9')

abbrev pub is_version_rune : ℕ → Bool
is_version_rune c = is_alphanumeric c || c == b'.' || c == b'_' || c == b'-'

-- `ValidateVersion`, by the pattern ^[A-Za-z0-9][A-Za-z0-9._-]{0,63}$.
unfoldable pub validate_version : Text → Bool
validate_version [] = false
validate_version (c ∷ cs) =
    is_alphanumeric c && leb (length cs) 63 && not (any_of (λ d. not (is_version_rune d)) cs)

-- The files below the storage path, by their paths, and the table.
pub record Store : Type 0 where
  pub files : List (Text × List ℕ)
  pub releases : List Release

abbrev pub has_path : Text → Text × List ℕ → Bool
has_path path f = text_eq f.0 path

-- `os.Rename` of the temporary file.
abbrev pub place : Text → List ℕ → Store → Store
place path content st = record st {
  files = (path, content) ∷ delete_where (has_path path) st.files;
}

-- `os.Remove`.
abbrev pub remove_file : Text → Store → Store
remove_file path st = record st { files = delete_where (has_path path) st.files }

pub data UploadError : Type 0 where
  invalid_version escapes_storage release_exists signature_validation_failed : UploadError
  signing_info_failed : UploadError

pub data Upload {ℓ} (A : Type ℓ) : Type ℓ where
  stored : A → Upload A
  not_stored : UploadError → Upload A

-- The error of `ExtractSigningInfo` where an identity is required.
abbrev pub required_name : Option Text → Upload Text
required_name none = not_stored signing_info_failed
required_name (some name) = stored name

-- `db.InsertRelease`, and the removal of the file where it fails.
abbrev pub recorded : Text → Store → Inserted → Upload Release × Store
recorded path st (inserted n rs) = (stored n, record st { releases = rs })
recorded path st release_version_exists = (not_stored release_exists, remove_file path st)

unfoldable pub record_release : ℕ → Text → Release → Store → Upload Release × Store
record_release now uuid r st = recorded r.file_path st (insert_release now uuid r st.releases)

module _ (storage_path : Text) (join : Text → Text → Text) (rel : Text → Text → Option Text)
    (sha256 : List ℕ → List ℕ) (validate : List ℕ → Text → Bool)
    (signer : List ℕ → Option Text) where
  -- The part of `isWithinStorage` behind filepath.Rel.
  abbrev stays_inside : Option Text → Bool
  stays_inside none = false
  stays_inside (some path) =
      if text_eq path (codes "..") then false else not (has_prefix path (codes "../"))

  unfoldable pub is_within_storage : Text → Bool
  is_within_storage path = stays_inside (rel storage_path path)

  abbrev pub version_dir : Text → Text
  version_dir version = join storage_path version

  abbrev pub final_path : Text → Text
  final_path version = join (version_dir version) (codes "minicontrol-worker")

  unfoldable pub release_paths : Text → Upload Text
  unfolding is_within_storage
  release_paths version =
      if not (validate_version version)
      then not_stored invalid_version
      else if not (is_within_storage (version_dir version))
      then not_stored escapes_storage
      else if not (is_within_storage (final_path version))
      then not_stored escapes_storage
      else stored (final_path version)

  -- `BinaryPath` of a release, with the absolute path that the row holds.
  unfoldable pub binary_path : Release → Option Text
  unfolding is_within_storage
  binary_path r =
      if is_empty r.file_path
      then none
      else if is_within_storage r.file_path
      then some r.file_path
      else none

  abbrev pub or_no_name : Option Text → Text
  or_no_name none = []
  or_no_name (some name) = name

  -- The name of the signer, whose checks are off where no identity is required.
  abbrev pub signed_by : Text → List ℕ → Option Text → Upload Text
  signed_by required content name =
      if is_empty required
      then stored (or_no_name name)
      else if not (validate content required)
      then not_stored signature_validation_failed
      else required_name name

  abbrev pub release_of : Text → List ℕ → Text → Text → Release
  release_of version content path name = record {
    id = [];
    version = version;
    sha256 = hex_encode (sha256 content);
    size_bytes = length content;
    signing_identity = name;
    file_path = path;
    uploaded_at = 0;
  }

  abbrev pub is_missing : Result Release → Bool
  is_missing (ok r) = false
  is_missing (err e) = true

  abbrev pub planned : Text → List ℕ → Text → Upload Text → Upload Release
  planned version content path (not_stored e) = not_stored e
  planned version content path (stored name) = stored (release_of version content path name)

  abbrev pub check_new : Text → Text → List ℕ → Store → Upload Text → Upload Release
  check_new required version content st (not_stored e) = not_stored e
  check_new required version content st (stored path) =
      if is_missing (get_release_by_version st.releases version)
      then planned version content path (signed_by required content (signer content))
      else not_stored release_exists

  -- The checks of `Upload`, up to the row that it is to insert.
  unfoldable pub check_upload : Text → Text → List ℕ → Store → Upload Release
  unfolding release_paths
  check_upload required version content st =
      check_new required version content st (release_paths version)

  -- `Upload` from the move on: the file is put in place, and then the row is inserted.
  unfoldable pub finish_upload : ℕ → Text → List ℕ → Release → Store → Upload Release × Store
  unfolding record_release
  finish_upload now uuid content r st = record_release now uuid r (place r.file_path content st)

  unfoldable pub go_on : ℕ → Text → List ℕ → Store → Upload Release → Upload Release × Store
  unfolding finish_upload
  go_on now uuid content st (not_stored e) = (not_stored e, st)
  go_on now uuid content st (stored r) = finish_upload now uuid content r st

  -- `Upload` while no other runs.
  unfoldable pub upload : ℕ → Text → Text → Text → List ℕ → Store → Upload Release × Store
  unfolding check_upload go_on
  upload now uuid required version content st =
      go_on now uuid content st (check_upload required version content st)
