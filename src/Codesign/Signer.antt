-- ===== src/Codesign/Signer.antt =====
-- Who is the signer of a binary.
use mini_control_public.Prelude.{
  ℕ, ◌≡◌, ◌≢◌, ◌∙◌, refl, sym, ap, subst, ◌⊎◌, inl, inr, false, ◌&&◌, List, [], ◌∷◌, Option, none,
  some, if-cases,
}
use mini_control_public.Text.{Text}
use mini_control_public.Http.{is_empty}
use mini_control_public.Codesign.{
  SigningInfo, CodeDirectory, CodeSignature, Certificate, Libraries, Extracted, extracted,
  not_extracted, info_of, fallback_name, with_name, not_ad_hoc, extract_cn_from_cms, cms_info,
  extract_from_file, extract_signing_info, leaf_certificate, name_of, certificates_name,
  signed_name, content_name, first_architecture, opened,
}
use mini_control_public.Codesign.Leaf.{Leaf, leaf_certificate-Leaf}

-- How a signature names its signer: by the leaf of the certificates in it, by the team and the ID of
-- its first code directory, or, with a team alone, not at all.
pub data NamedBy (libraries : Libraries) (cs : CodeSignature) : Text → Type 0 where
  by_certificate :
      (content bytes : List ℕ) (certs : List Certificate) (c : Certificate)
      → libraries.content_info cs.cms_signature ≡ some content
      → libraries.signed_data content ≡ some bytes
      → libraries.parse_certificates bytes ≡ some certs
      → Leaf certs c
      → NamedBy libraries cs c.common_name
  by_team :
      (info_of cs.code_directories).team_id ≢ []
      → extract_cn_from_cms libraries cs.cms_signature ≡ none
      → NamedBy libraries cs (fallback_name (info_of cs.code_directories))
  by_nothing : (info_of cs.code_directories).team_id ≢ [] → NamedBy libraries cs []

-- What is extracted from a binary.
abbrev Identified : Libraries → CodeSignature → Extracted → Type 0
Identified libraries cs (not_extracted e) = Unit {0}
Identified libraries cs (extracted info) =
    (info.team_id ≡ (info_of cs.code_directories).team_id) × NamedBy libraries cs info.common_name

-- The architecture that is read, and its signature.
abbrev pub Signature : Libraries → List ℕ → CodeSignature → Type 0
Signature libraries content cs =
    (libraries.open_macho content ≡ some (some cs))
    ⊎ ((fs : List (Option CodeSignature)) × (libraries.open_macho content ≡ none)
        × (libraries.open_fat content ≡ some (some cs ∷ fs)))

is_empty-full : (t : Text) → is_empty t ≡ false → t ≢ []
is_empty-full t e n = cc (ap is_empty n, e)

named_somehow : (a b : Text) → (is_empty a && is_empty b) ≡ false → (a ≢ []) ⊎ (b ≢ [])
named_somehow [] b e = inr (is_empty-full b e)
named_somehow (c ∷ cs) b e = inl (λ n. cc n)

info_of-nameless : (ds : List CodeDirectory) → (info_of ds).common_name ≡ []
info_of-nameless [] = refl
info_of-nameless (d ∷ ds) = refl

module _ (libraries : Libraries) where
  module _ (cs : CodeSignature) (name : Text) where
    leaf-NamedBy :
        (content bytes : List ℕ) (certs : List Certificate) (o : Option Certificate)
        → libraries.content_info cs.cms_signature ≡ some content
        → libraries.signed_data content ≡ some bytes
        → libraries.parse_certificates bytes ≡ some certs
        → leaf_certificate certs ≡ o
        → name_of o ≡ some name
        → NamedBy libraries cs name
    leaf-NamedBy content bytes certs none h k l m e = cc e
    leaf-NamedBy content bytes certs (some c) h k l m e =
        subst (NamedBy libraries cs) (cc e)
          (by_certificate content bytes certs c h k l (leaf_certificate-Leaf certs c m))

    certs-NamedBy :
        (content bytes : List ℕ) (o : Option (List Certificate))
        → libraries.content_info cs.cms_signature ≡ some content
        → libraries.signed_data content ≡ some bytes
        → libraries.parse_certificates bytes ≡ o
        → certificates_name libraries o ≡ some name
        → NamedBy libraries cs name
    certs-NamedBy content bytes none h k l e = cc e
    certs-NamedBy content bytes (some certs) h k l e =
        leaf-NamedBy content bytes certs (leaf_certificate certs) h k l refl e

    data-NamedBy :
        (content : List ℕ) (o : Option (List ℕ))
        → libraries.content_info cs.cms_signature ≡ some content
        → libraries.signed_data content ≡ o
        → signed_name libraries o ≡ some name
        → NamedBy libraries cs name
    data-NamedBy content none h k e = cc e
    data-NamedBy content (some bytes) h k e =
        certs-NamedBy content bytes (libraries.parse_certificates bytes) h k refl e

    info-NamedBy :
        (o : Option (List ℕ))
        → libraries.content_info cs.cms_signature ≡ o
        → content_name libraries o ≡ some name
        → NamedBy libraries cs name
    info-NamedBy none h e = cc e
    info-NamedBy (some content) h e = data-NamedBy content (libraries.signed_data content) h refl e

    cn-NamedBy :
        extract_cn_from_cms libraries cs.cms_signature ≡ some name → NamedBy libraries cs name
    unfolding extract_cn_from_cms
    cn-NamedBy e = info-NamedBy (libraries.content_info cs.cms_signature) refl e

  -- The info as it stands before the test for an ad-hoc signature.
  abbrev Filled : CodeSignature → SigningInfo → Type 0
  Filled cs info =
      (info.team_id ≡ (info_of cs.code_directories).team_id)
      × (info.team_id ≢ [] ⊎ info.common_name ≢ [] → NamedBy libraries cs info.common_name)

  -- The fields of the code directory alone.
  nameless-Filled : (cs : CodeSignature) → Filled cs (info_of cs.code_directories)
  nameless-Filled cs =
      let none_there = info_of-nameless cs.code_directories in
      (
        refl,
        λ h. elim h [
          | inl team ↦ subst (NamedBy libraries cs) (sym none_there) (by_nothing team)
          | inr name ↦ absurd (name none_there)
        ],
      )

  with_name-Filled :
      (cs : CodeSignature) (o : Option Text)
      → extract_cn_from_cms libraries cs.cms_signature ≡ o
      → Filled cs (with_name (info_of cs.code_directories) o)
  with_name-Filled cs (some name) e = (refl, λ h. cn-NamedBy cs name e)
  with_name-Filled cs none e =
      if-cases (Filled cs) (is_empty (info_of cs.code_directories).team_id)
        (info_of cs.code_directories) _ (λ h. nameless-Filled cs)
        (λ h. (refl, λ n. by_team (is_empty-full _ h) e))

  cms_info-Filled :
      (cs : CodeSignature) (bytes : List ℕ)
      → cs.cms_signature ≡ bytes
      → Filled cs (cms_info libraries (info_of cs.code_directories) bytes)
  cms_info-Filled cs [] e = nameless-Filled cs
  cms_info-Filled cs (b ∷ bs) e =
      with_name-Filled cs (extract_cn_from_cms libraries (b ∷ bs))
        (ap (extract_cn_from_cms libraries) e)

  not_ad_hoc-Identified :
      (cs : CodeSignature) (info : SigningInfo)
      → Filled cs info
      → Identified libraries cs (not_ad_hoc info)
  not_ad_hoc-Identified cs info h =
      if-cases (Identified libraries cs) (is_empty info.team_id && is_empty info.common_name) _ _
        (λ e. tt) (λ e. (h.0, h.1 (named_somehow info.team_id info.common_name e)))

  file-Identified :
      (cs : CodeSignature) → Identified libraries cs (extract_from_file libraries (some cs))
  unfolding extract_from_file
  file-Identified cs = not_ad_hoc-Identified cs _ (cms_info-Filled cs cs.cms_signature refl)

  -- What is extracted is that of a signature of the binary.
  abbrev pub Found : List ℕ → Extracted → Type 0
  Found content x =
      (info : SigningInfo)
      → x ≡ extracted info
      → (cs : CodeSignature) × Signature libraries content cs
        × NamedBy libraries cs info.common_name

  file-Found :
      (content : List ℕ) (f : Option CodeSignature)
      → ((cs : CodeSignature) → f ≡ some cs → Signature libraries content cs)
      → Found content (extract_from_file libraries f)
  file-Found content none h info e = (unfold extract_from_file in cc e)
  file-Found content (some cs) h info e =
      let i : Identified libraries cs (extracted info) =
        subst (Identified libraries cs) e (file-Identified cs) in
      (cs, h cs refl, i.1)

  opened-Found :
      (content : List ℕ) (o : Option (Option CodeSignature))
      → libraries.open_macho content ≡ o
      → Found content (opened libraries content o)
  opened-Found content (some f) h = file-Found content f (λ cs e. inl (h ∙ ap some e))
  opened-Found content none h = fat-Found (libraries.open_fat content) refl
    where
      fat-Found :
          (o : Option (List (Option CodeSignature)))
          → libraries.open_fat content ≡ o
          → Found content (first_architecture libraries o)
      fat-Found none k = λ info e. cc e
      fat-Found (some []) k = λ info e. cc e
      fat-Found (some (f ∷ fs)) k =
          file-Found content f (λ cs e. inr (fs, h, k ∙ ap (λ g. some (g ∷ fs)) e))

  pub extract-Found : (content : List ℕ) → Found content (extract_signing_info libraries content)
  unfolding extract_signing_info
  extract-Found content = opened-Found content (libraries.open_macho content) refl
