-- ===== src/ReleaseApi/Served.antt =====
-- What a download gives after an upload.
use mini_control_public.Prelude.{
  ℕ, ◌≡◌, ◌∙◌, ap, subst, refl, Bool, true, false, List, Option, some, arith,
}
use mini_control_public.Text.{Text, hex_encode}
use mini_control_public.Http.{reply, is_empty}
use mini_control_public.Releases.{Release}
use mini_control_public.ReleaseStore.{
  Store, Upload, stored, not_stored, validate_version, is_within_storage, final_path, release_paths,
  check_new, check_upload, go_on, upload, binary_path,
}
use mini_control_public.ReleaseStore.Stored.{find_file, Finished, upload-Finished}
use mini_control_public.ReleaseStore.Race.{another}
use mini_control_public.ReleaseApi.{serve, handle_release_download}

module _ (storage_path : Text) (join : Text → Text → Text) (rel : Text → Text → Option Text)
    (hash : List ℕ → List ℕ) (validate : List ℕ → Text → Bool) (signer : List ℕ → Option Text) where
  checked_paths :
      (version path : Text)
      → release_paths storage_path join rel hash validate signer version ≡ stored path
      → (validate_version version ≡ true)
        × (is_within_storage storage_path join rel hash validate signer
              (final_path storage_path join rel hash validate signer version)
            ≡ true)
  unfolding release_paths
  checked_paths version path h = ground arith

  stored_paths :
      (now : ℕ) (uuid required version : Text) (content : List ℕ) (n : Release) (st st' : Store)
      → upload storage_path join rel hash validate signer now uuid required version content st
        ≡ (stored n, st')
      → (validate_version version ≡ true)
        × (is_within_storage storage_path join rel hash validate signer
              (final_path storage_path join rel hash validate signer version)
            ≡ true)
  unfolding upload check_upload go_on
  stored_paths now uuid required version content n st st' =
      go (release_paths storage_path join rel hash validate signer version) refl
    where
      go :
          (u : Upload Text)
          → release_paths storage_path join rel hash validate signer version ≡ u
          → go_on storage_path join rel hash validate signer now uuid content st
              (check_new storage_path join rel hash validate signer required version content st u)
            ≡ (stored n, st')
          → (validate_version version ≡ true)
            × (is_within_storage storage_path join rel hash validate signer
                  (final_path storage_path join rel hash validate signer version)
                ≡ true)
      go (not_stored e) h k = cc k
      go (stored path) h k = checked_paths version path h

  served_path :
      (r : Release) (path : Text)
      → r.file_path ≡ path
      → is_empty path ≡ false
      → is_within_storage storage_path join rel hash validate signer path ≡ true
      → binary_path storage_path join rel hash validate signer r ≡ some path
  unfolding binary_path
  served_path r path e full inside = ground (arith, e, full, inside)

  serve_lem :
      (r : Release) (path : Text)
      → binary_path storage_path join rel hash validate signer r ≡ some path
      → serve storage_path join rel hash validate signer r
        ≡ reply 200 (record { path = path; sha256 = r.sha256; version = r.version })
  serve_lem r path e = rw (e, serve) refl

  -- After an upload that succeeds, a download of that version serves the path that holds the content
  -- that was uploaded, with the hash of that content.
  pub download-upload :
      (now : ℕ) (uuid required version : Text) (content : List ℕ) (n : Release) (st st' : Store)
      → is_empty (final_path storage_path join rel hash validate signer version) ≡ false
      → upload storage_path join rel hash validate signer now uuid required version content st
        ≡ (stored n, st')
      → let path = final_path storage_path join rel hash validate signer version in
        (handle_release_download storage_path join rel hash validate signer version (some st')
          ≡ reply 200
              (record { path = path; sha256 = hex_encode (hash content); version = n.version }))
        × (find_file path st' ≡ some (path, content))
  unfolding handle_release_download
  download-upload now uuid required version content n st st' full h =
      let path : Text = final_path storage_path join rel hash validate signer version in
      let (p, other) = another path in
      let f : Finished version path content (hex_encode (hash content)) p st (stored n, st') =
        subst (Finished version path content (hex_encode (hash content)) p st) h (
          upload-Finished storage_path join rel hash validate signer now uuid required version
            content p st other) in
      let c = stored_paths now uuid required version content n st st' h in
      (
        rw (c.0, f.0)
            (serve_lem n path (served_path n path f.1 full c.1)
              ∙ ap
                  (λ (t : Text).
                    reply 200 (record { path = path; sha256 = t; version = n.version }))
                  f.2),
        f.3,
      )
