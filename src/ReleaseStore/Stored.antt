-- ===== src/ReleaseStore/Stored.antt =====
-- What an upload on its own leaves.
use mini_control_public.Prelude.{
  ℕ, ◌≡◌, ap, sym, subst, refl, Bool, true, false, ◌||◌, List, [], ◌∷◌, ◌++◌, Option, none, some,
  any_of, find_if, delete_where, arith, Bool-cases, inl, inr, find_if-append,
}
use mini_control_public.Text.{Text, text_eq, text_eq_iff, text_eq_refl, hex_encode}
use mini_control_public.Db.{ok, or_not_found}
use mini_control_public.Releases.{
  Release, insert_release, inserted, release_version_exists, Inserted, get_release_by_version,
}
use mini_control_public.ReleaseStore.{
  Store, has_path, place, UploadError, Upload, stored, not_stored, recorded, record_release,
  final_path, release_paths, signed_by, release_of, planned, check_new, go_on, is_missing,
  check_upload, finish_upload, upload,
}

abbrev pub find_file : Text → Store → Option (Text × List ℕ)
find_file path st = find_if (has_path path) st.files

find_file-other :
    (path p : Text) (fs : List (Text × List ℕ))
    → text_eq path p ≡ false
    → find_if (has_path p) (delete_where (has_path path) fs) ≡ find_if (has_path p) fs
unfolding delete_where
find_file-other path p [] e = refl
find_file-other path p (f ∷ fs) e = ground (
  arith,
  e,
  text_eq_iff f.0 path,
  text_eq_iff f.0 p,
  text_eq_iff path p,
  find_file-other path p fs e,
)

any_of-no_version :
    (uuid version : Text) (rs : List Release)
    → any_of (λ x. text_eq x.id uuid || text_eq x.version version) rs ≡ false
    → find_if (λ r. text_eq r.version version) rs ≡ none
any_of-no_version uuid version [] h = refl
any_of-no_version uuid version (r ∷ rs) h = ground (arith, any_of-no_version uuid version rs)

pub any_of-version :
    (uuid version : Text) (rs : List Release) (n : Release)
    → find_if (λ r. text_eq r.version version) rs ≡ some n
    → any_of (λ x. text_eq x.id uuid || text_eq x.version version) rs ≡ true
any_of-version uuid version [] n h = cc h
any_of-version uuid version (r ∷ rs) n h = ground (arith, any_of-version uuid version rs n)

-- What an insertion into the table gives.
data Insertion (r : Release) (rs : List Release) : Inserted → Type 0 where
  is_new :
      (n : Release) (rs' : List Release)
      → get_release_by_version rs' r.version ≡ ok n
      → n.file_path ≡ r.file_path
      → n.sha256 ≡ r.sha256
      → Insertion r rs (inserted n rs')
  is_old : Insertion r rs release_version_exists

insert-Insertion :
    (now : ℕ) (uuid : Text) (r : Release) (rs : List Release)
    → Insertion r rs (insert_release now uuid r rs)
unfolding insert_release get_release_by_version
insert-Insertion now uuid r rs =
    elim (Bool-cases (any_of (λ x. text_eq x.id uuid || text_eq x.version r.version) rs)) [
      | inl clash ↦ rw clash is_old
      | inr free ↦
          let n : Release = record r { id = uuid; uploaded_at = now } in
          let last : find_if (λ x. text_eq x.version r.version) (rs ++ n ∷ []) ≡ some n =
            rw
              (
                find_if-append (λ x. text_eq x.version r.version) rs (n ∷ []),
                any_of-no_version uuid r.version rs free,
                text_eq_refl r.version,
              )
              refl in
          rw free (is_new n (rs ++ n ∷ []) (ap or_not_found last) refl refl)
    ]

-- The last part of an upload, for the content `content` and another path `p`.
abbrev pub Finished : Text → Text → List ℕ → Text → Text → Store → Upload Release × Store → Type 0
Finished version path content hash p st (not_stored e, st') = st'.releases ≡ st.releases
Finished version path content hash p st (stored n, st') =
    (get_release_by_version st'.releases version ≡ ok n)
    × (n.file_path ≡ path)
    × (n.sha256 ≡ hash)
    × (find_file path st' ≡ some (path, content))
    × (find_file p st' ≡ find_file p st)

recorded-Finished :
    (r : Release) (content : List ℕ) (p : Text) (st : Store) (i : Inserted)
    → text_eq r.file_path p ≡ false
    → Insertion r st.releases i
    → Finished r.version r.file_path content r.sha256 p st
        (recorded r.file_path (place r.file_path content st) i)
recorded-Finished r content p st release_version_exists e is_old = refl
recorded-Finished r content p st (inserted n rs') e (is_new n' rs'' found path hash) = (
  found,
  path,
  hash,
  rw (text_eq_refl r.file_path) refl,
  rw e (find_file-other r.file_path p st.files e),
)

module _ (storage_path : Text) (join : Text → Text → Text) (rel : Text → Text → Option Text)
    (sha256 : List ℕ → List ℕ) (validate : List ℕ → Text → Bool)
    (signer : List ℕ → Option Text) where
  pub finish-Finished :
      (now : ℕ) (uuid : Text) (content : List ℕ) (r : Release) (p : Text) (st : Store)
      → text_eq r.file_path p ≡ false
      → Finished r.version r.file_path content r.sha256 p st
          (finish_upload storage_path join rel sha256 validate signer now uuid content r st)
  unfolding finish_upload record_release
  finish-Finished now uuid content r p st e =
      recorded-Finished r content p st _ e (insert-Insertion now uuid r st.releases)

  pub release_paths-final :
      (version path : Text)
      → release_paths storage_path join rel sha256 validate signer version ≡ stored path
      → path ≡ final_path storage_path join rel sha256 validate signer version
  unfolding release_paths
  release_paths-final version path h = ground arith

  abbrev pub planned_row : Text → List ℕ → Text → Release
  planned_row version content name =
      release_of storage_path join rel sha256 validate signer version content
        (final_path storage_path join rel sha256 validate signer version) name

  -- The row that the checks plan, if they pass.
  pub data Plan (version : Text) (content : List ℕ) : Upload Release → Type 0 where
    plans : (name : Text) → Plan version content (stored (planned_row version content name))
    fails : (e : UploadError) → Plan version content (not_stored e)

  planned-Plan :
      (version : Text) (content : List ℕ) (path : Text) (u : Upload Text)
      → path ≡ final_path storage_path join rel sha256 validate signer version
      → Plan version content
          (planned storage_path join rel sha256 validate signer version content path u)
  planned-Plan version content path (not_stored e) h = fails e
  planned-Plan version content path (stored name) h =
      subst
        (λ (p : Text).
          Plan version content (
            stored
              (release_of storage_path join rel sha256 validate signer version content p name)))
        (sym h) (plans name)

  pub check_new-Plan :
      (required version : Text) (content : List ℕ) (st : Store) (u : Upload Text)
      → release_paths storage_path join rel sha256 validate signer version ≡ u
      → Plan version content
          (check_new storage_path join rel sha256 validate signer required version content st u)
  check_new-Plan required version content st (not_stored e) h = fails e
  check_new-Plan required version content st (stored path) h =
      elim (Bool-cases (
        is_missing storage_path join rel sha256 validate signer
          (get_release_by_version st.releases version))) [
            | inr there ↦ rw there (fails _)
            | inl new ↦ rw new (
                planned-Plan version content path
                  (signed_by storage_path join rel sha256 validate signer required content
                    (signer content))
                  (release_paths-final version path h))
          ]

  go_on-Finished :
      (now : ℕ) (uuid version : Text) (content : List ℕ) (p : Text) (st : Store)
      (u : Upload Release)
      → text_eq (final_path storage_path join rel sha256 validate signer version) p ≡ false
      → Plan version content u
      → Finished version
          (final_path storage_path join rel sha256 validate signer version)
          content
          (hex_encode (sha256 content))
          p
          st
          (go_on storage_path join rel sha256 validate signer now uuid content st u)
  unfolding go_on
  go_on-Finished now uuid version content p st (not_stored e) h (fails e') = refl
  go_on-Finished now uuid version content p st (stored r) h (plans name) =
      finish-Finished now uuid content (planned_row version content name) p st h

  -- An upload that runs on its own and succeeds leaves a row of that version with the hash of the
  -- content, and the content under the path of the row; it leaves what stands under another path. One
  -- that fails leaves the table as it was.
  pub upload-Finished :
      (now : ℕ) (uuid required version : Text) (content : List ℕ) (p : Text) (st : Store)
      → text_eq (final_path storage_path join rel sha256 validate signer version) p ≡ false
      → Finished version
          (final_path storage_path join rel sha256 validate signer version)
          content
          (hex_encode (sha256 content))
          p
          st
          (upload storage_path join rel sha256 validate signer now uuid required version content st)
  unfolding upload check_upload
  upload-Finished now uuid required version content p st h =
      go_on-Finished now uuid version content p st _ h (
        check_new-Plan required version content st
          (release_paths storage_path join rel sha256 validate signer version) refl)
