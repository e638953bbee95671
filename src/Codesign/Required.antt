-- ===== src/Codesign/Required.antt =====
-- Whose name a release is stored under where the server requires an identity.
use mini_control_public.Prelude.{
  ℕ, ◌≡◌, refl, subst, true, false, not, ◌||◌, any_of, List, Option, none, some, if-cases,
  not-false,
}
use mini_control_public.Text.{Text, text_eq, text_eq_iff}
use mini_control_public.Http.{is_empty}
use mini_control_public.Releases.{
  Release, insert_release, get_release_by_version, Inserted, release_version_exists,
}
use mini_control_public.ReleaseStore.{
  Store, is_missing, release_exists, Upload, stored, not_stored, upload, check_upload, check_new,
  planned, signed_by, finish_upload, record_release, recorded, required_name, go_on, place,
}
use mini_control_public.Codesign.{
  CodeSignature, Libraries, Extracted, extracted, not_extracted, extract_signing_info,
  validate_signing_identity, signer_name, is_identity, extracted_name,
}
use mini_control_public.Codesign.Signer.{NamedBy, Signature, Found, extract-Found}

-- What a required identity is the name of.
abbrev pub Signed : Libraries → Text → List ℕ → Type 0
Signed libraries required content =
    (cs : CodeSignature) × Signature libraries content cs × NamedBy libraries cs required

-- Where an identity is required, a release that is stored has it, and it names the signer of the
-- signature of its content.
abbrev pub HasIdentity : Libraries → Text → List ℕ → Upload Release → Type 0
HasIdentity libraries required content (not_stored e) = Unit
HasIdentity libraries required content (stored r) =
    (r.signing_identity ≡ required) × Signed libraries required content

-- The same of the name that an upload is to have.
abbrev NameHas : Libraries → Text → List ℕ → Upload Text → Type 0
NameHas libraries required content (not_stored e) = Unit
NameHas libraries required content (stored name) =
    (name ≡ required) × Signed libraries required content

module _ (libraries : Libraries) (required : Text) (content : List ℕ) where
  validated :
      (x : Extracted)
      → Found libraries content x
      → is_identity libraries required x ≡ true
      → Signed libraries required content
  validated (not_extracted e) f h = cc h
  validated (extracted info) f h =
      let s = f info refl in
      (s.0, s.1, subst (NamedBy libraries s.0) ((text_eq_iff info.common_name required).0 h) s.2)

  named_so :
      (x : Extracted) (name : Text)
      → is_identity libraries required x ≡ true
      → extracted_name libraries x ≡ some name
      → name ≡ required
  named_so (not_extracted e) name h k = cc h
  named_so (extracted info) name h k = cc (k, (text_eq_iff info.common_name required).0 h)

  module _ (storage_path : Text) (join : Text → Text → Text) (rel : Text → Text → Option Text)
      (sha256 : List ℕ → List ℕ) (lacks_none : is_empty required ≡ false) where
    required_name-NameHas :
        (o : Option Text)
        → signer_name libraries content ≡ o
        → validate_signing_identity libraries content required ≡ true
        → NameHas libraries required content (required_name o)
    unfolding signer_name validate_signing_identity
    required_name-NameHas none e v = tt
    required_name-NameHas (some name) e v = (
      named_so (extract_signing_info libraries content) name v e,
      validated (extract_signing_info libraries content) (extract-Found libraries content) v,
    )

    signed_by-NameHas : NameHas libraries required content (
        signed_by storage_path join rel sha256
          (validate_signing_identity libraries)
          (signer_name libraries)
          required
          content
          (signer_name libraries content))
    unfolding signer_name
    signed_by-NameHas =
        if-cases {A = Upload Text} (NameHas libraries required content) (is_empty required) _ _
          (λ e. cc (e, lacks_none))
          (λ e.
            if-cases {A = Upload Text} (NameHas libraries required content)
              (not (validate_signing_identity libraries content required)) _ _ (λ bad. tt)
              (λ good.
                required_name-NameHas (signer_name libraries content) refl (not-false _ good)))

    planned-HasIdentity :
        (version path : Text) (u : Upload Text)
        → NameHas libraries required content u
        → HasIdentity libraries required content (
            planned storage_path join rel sha256
              (validate_signing_identity libraries)
              (signer_name libraries)
              version
              content
              path
              u)
    planned-HasIdentity version path (not_stored e) h = tt
    planned-HasIdentity version path (stored name) h = h

    check_new-HasIdentity :
        (version : Text) (st : Store) (u : Upload Text)
        → HasIdentity libraries required content (
            check_new storage_path join rel sha256
              (validate_signing_identity libraries)
              (signer_name libraries)
              required
              version
              content
              st
              u)
    check_new-HasIdentity version st (not_stored e) = tt
    check_new-HasIdentity version st (stored path) =
        if-cases {A = Upload Release} (HasIdentity libraries required content)
          (is_missing storage_path join rel sha256 (validate_signing_identity libraries)
            (signer_name libraries) (get_release_by_version st.releases version))
          _ (not_stored release_exists)
          (λ new. planned-HasIdentity version path _ signed_by-NameHas) (λ there. tt)

    recorded-HasIdentity :
        (now : ℕ) (uuid path : Text) (r : Release) (st : Store)
        → HasIdentity libraries required content (stored r)
        → HasIdentity libraries required content
            (recorded path st (insert_release now uuid r st.releases)).0
    unfolding insert_release
    recorded-HasIdentity now uuid path r st h =
        if-cases {A = Inserted} (λ i. HasIdentity libraries required content (recorded path st i).0)
          (any_of (λ x. text_eq x.id uuid || text_eq x.version r.version) st.releases)
          release_version_exists _ (λ clash. tt) (λ free. h)

    go_on-HasIdentity :
        (now : ℕ) (uuid : Text) (st : Store) (u : Upload Release)
        → HasIdentity libraries required content u
        → HasIdentity libraries required content
            (go_on storage_path join rel sha256
              (validate_signing_identity libraries)
              (signer_name libraries)
              now
              uuid
              content
              st
              u).0
    unfolding go_on finish_upload record_release
    go_on-HasIdentity now uuid st (not_stored e) h = tt
    go_on-HasIdentity now uuid st (stored r) h =
        recorded-HasIdentity now uuid r.file_path r (place r.file_path content st) h

    -- Where the server requires an identity, a release that an upload stores has that identity in its
    -- row, and it names the signer of the binary: the first architecture has a code signature, whose
    -- leaf certificate has that common name, or whose certificates are not to be read while its first
    -- code directory gives a team and an ID that make up the name.
    pub upload-HasIdentity :
        (now : ℕ) (uuid version : Text) (st : Store)
        → HasIdentity libraries required content
            (upload storage_path join rel sha256
              (validate_signing_identity libraries)
              (signer_name libraries)
              now
              uuid
              required
              version
              content
              st).0
    unfolding upload check_upload
    upload-HasIdentity now uuid version st =
        go_on-HasIdentity now uuid st _ (check_new-HasIdentity version st _)
