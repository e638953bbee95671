-- ===== src/ReleaseStore/Race.antt =====
-- Two uploads of one version at once.
use mini_control_public.Prelude.{
  ℕ, ◌≡◌, ◌∙◌, ap, sym, subst, refl, Bool, false, List, [], ◌∷◌, Option, none, some, find_if,
  find_if-delete_where_self,
}
use mini_control_public.Text.{Text, text_eq}
use mini_control_public.Db.{ok, or_not_found}
use mini_control_public.Releases.{Release, insert_release, get_release_by_version}
use mini_control_public.ReleaseStore.{
  Store, has_path, place, remove_file, release_exists, Upload, stored, not_stored, record_release,
  final_path, release_paths, check_upload, finish_upload,
}
use mini_control_public.ReleaseStore.Stored.{
  find_file, any_of-version, Finished, finish-Finished, planned_row, Plan, plans, fails,
  check_new-Plan,
}

pub another : (t : Text) → (p : Text) × (text_eq t p ≡ false)
unfolding text_eq
another [] = (0 ∷ [], refl)
another (c ∷ cs) = ([], refl)

get-find :
    (rs : List Release) (version : Text) (n : Release)
    → get_release_by_version rs version ≡ ok n
    → find_if (λ r. text_eq r.version version) rs ≡ some n
unfolding get_release_by_version
get-find rs version n h = go (find_if (λ r. text_eq r.version version) rs) h
  where
    go : (o : Option Release) → or_not_found o ≡ ok n → o ≡ some n
    go none e = cc e
    go (some m) e = cc e

module _ (storage_path : Text) (join : Text → Text → Text) (rel : Text → Text → Option Text)
    (sha256 : List ℕ → List ℕ) (validate : List ℕ → Text → Bool)
    (signer : List ℕ → Option Text) where
  -- The row of a plan stands for the version, with the version's path.
  planned_lem :
      (version : Text) (content : List ℕ) (u : Upload Release) (r : Release)
      → Plan storage_path join rel sha256 validate signer version content u
      → u ≡ stored r
      → (r.version ≡ version)
        × (r.file_path ≡ final_path storage_path join rel sha256 validate signer version)
  planned_lem version content u r (plans name) e =
      let same : planned_row storage_path join rel sha256 validate signer version content name ≡ r =
        cc e in
      (ap (λ (x : Release). x.version) (sym same), ap (λ (x : Release). x.file_path) (sym same))
  planned_lem version content u r (fails c) e = cc e

  checked_row :
      (required version : Text) (content : List ℕ) (st : Store) (r : Release)
      → check_upload storage_path join rel sha256 validate signer required version content st
        ≡ stored r
      → (r.version ≡ version)
        × (r.file_path ≡ final_path storage_path join rel sha256 validate signer version)
  unfolding check_upload
  checked_row required version content st r h =
      planned_lem version content _ r
        (check_new-Plan storage_path join rel sha256 validate signer required version content st
          (release_paths storage_path join rel sha256 validate signer version) refl)
        h

  -- The upload that comes second finds a row of its version, and removes the file of that row.
  second_lem :
      (now : ℕ) (uuid : Text) (content : List ℕ) (r n : Release) (st : Store)
      → get_release_by_version st.releases r.version ≡ ok n
      → finish_upload storage_path join rel sha256 validate signer now uuid content r st
        ≡ (not_stored release_exists, remove_file r.file_path (place r.file_path content st))
  unfolding finish_upload record_release insert_release
  second_lem now uuid content r n st h =
      rw (any_of-version uuid r.version st.releases n (get-find st.releases r.version n h)) refl

  first_lem :
      (now : ℕ) (uuid : Text) (content : List ℕ) (r n : Release) (st st1 : Store)
      → finish_upload storage_path join rel sha256 validate signer now uuid content r st
        ≡ (stored n, st1)
      → (get_release_by_version st1.releases r.version ≡ ok n) × (n.file_path ≡ r.file_path)
  first_lem now uuid content r n st st1 h =
      let (p, other) = another r.file_path in
      let f : Finished r.version r.file_path content r.sha256 p st (stored n, st1) =
        subst (Finished r.version r.file_path content r.sha256 p st) h (
          finish-Finished storage_path join rel sha256 validate signer now uuid content r p st
            other) in
      (f.0, f.1)

  -- If two uploads of one version pass the checks before either has put its file in place, the one
  -- that comes second is refused and takes the file of the first away: the row stays, and no file
  -- stands under its path.
  pub race-Lost :
      (now later : ℕ) (first_uuid second_uuid required version : Text)
      (first_content second_content : List ℕ) (first second n : Release) (st st1 : Store)
      → check_upload storage_path join rel sha256 validate signer required version first_content st
        ≡ stored first
      → check_upload storage_path join rel sha256 validate signer required version second_content st
        ≡ stored second
      → finish_upload storage_path join rel sha256 validate signer now first_uuid first_content
          first st
        ≡ (stored n, st1)
      → let (out, st2) =
          finish_upload storage_path join rel sha256 validate signer later second_uuid
            second_content second st1 in
        (out ≡ not_stored release_exists)
        × (get_release_by_version st2.releases version ≡ ok n)
        × (find_file n.file_path st2 ≡ none)
  race-Lost now later first_uuid second_uuid required version first_content second_content first
        second n st st1 ca cb h =
      let a = checked_row required version first_content st first ca in
      let b = checked_row required version second_content st second cb in
      let made = first_lem now first_uuid first_content first n st st1 h in
      let row : get_release_by_version st1.releases version ≡ ok n =
        ap (get_release_by_version st1.releases) (sym a.0) ∙ made.0 in
      let path : n.file_path ≡ second.file_path = made.1 ∙ a.1 ∙ sym b.1 in
      rw
        (second_lem later second_uuid second_content second n st1
          (ap (get_release_by_version st1.releases) b.0 ∙ row))
        (refl, row, rw path (find_if-delete_where_self (has_path second.file_path) _))
