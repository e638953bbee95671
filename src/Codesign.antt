-- ===== src/Codesign.antt =====
-- server/internal/release/codesign.go: who signed a Mach-O binary. What go-macho, encoding/asn1 and
-- crypto/x509 read is a parameter.
pub mod Leaf
pub mod Signer
pub mod Required
use mini_control_public.Prelude.{
  ℕ, Bool, true, false, ◌&&◌, not, List, [], ◌∷◌, ◌++◌, Option, none, some, find_if, if◌then◌else◌,
}
use mini_control_public.Text.{Text, codes, text_eq}
use mini_control_public.Http.{is_empty}

pub record SigningInfo : Type 0 where
  pub id : Text
  pub team_id : Text
  pub common_name : Text
  pub cd_hash : Text

-- The fields of go-macho's types that are read.
pub record CodeDirectory : Type 0 where
  pub id : Text
  pub team_id : Text
  pub cd_hash : Text

pub record CodeSignature : Type 0 where
  pub code_directories : List CodeDirectory
  pub cms_signature : List ℕ

-- A certificate, by `IsCA` and `Subject.CommonName`.
pub record Certificate : Type 0 where
  pub is_ca : Bool
  pub common_name : Text

-- `open_macho` and `open_fat` read a file, the latter each architecture's; a binary is what
-- `CodeSignature` gives of it. `content_info` and `signed_data` answer the bytes of the field that
-- is used, `Content` and `Certificates`.
pub record Libraries : Type 0 where
  pub open_macho : List ℕ → Option (Option CodeSignature)
  pub open_fat : List ℕ → Option (List (Option CodeSignature))
  pub content_info : List ℕ → Option (List ℕ)
  pub signed_data : List ℕ → Option (List ℕ)
  pub parse_certificates : List ℕ → Option (List Certificate)

pub data SigningError : Type 0 where
  not_macho no_architectures no_code_signature ad_hoc_signed : SigningError

pub data Extracted : Type 0 where
  extracted : SigningInfo → Extracted
  not_extracted : SigningError → Extracted

-- The fields of the first code directory, or the zero value.
abbrev pub info_of : List CodeDirectory → SigningInfo
info_of [] = record { id = []; team_id = []; common_name = []; cd_hash = [] }
info_of (d ∷ ds) = record { id = d.id; team_id = d.team_id; common_name = []; cd_hash = d.cd_hash }

-- The certificate that the loop returns, or else the first.
abbrev pub leaf_or_first : Option Certificate → List Certificate → Option Certificate
leaf_or_first (some c) certs = some c
leaf_or_first none [] = none
leaf_or_first none (c ∷ cs) = some c

unfoldable pub leaf_certificate : List Certificate → Option Certificate
leaf_certificate certs = leaf_or_first (find_if (λ c. not c.is_ca) certs) certs

abbrev pub name_of : Option Certificate → Option Text
name_of none = none
name_of (some c) = some c.common_name

-- `(team: %s, id: %s)`.
abbrev pub fallback_name : SigningInfo → Text
fallback_name info = codes "(team: " ++ (info.team_id ++ (codes ", id: " ++ (info.id ++ codes ")")))

-- The name for a signature that is not empty.
abbrev pub with_name : SigningInfo → Option Text → SigningInfo
with_name info (some name) = record info { common_name = name }
with_name info none =
    if is_empty info.team_id then info else record info { common_name = fallback_name info }

abbrev pub not_ad_hoc : SigningInfo → Extracted
not_ad_hoc info =
    if is_empty info.team_id && is_empty info.common_name
    then not_extracted ad_hoc_signed
    else extracted info

module _ (libraries : Libraries) where
  abbrev pub certificates_name : Option (List Certificate) → Option Text
  certificates_name none = none
  certificates_name (some certs) = name_of (leaf_certificate certs)

  abbrev pub signed_name : Option (List ℕ) → Option Text
  signed_name none = none
  signed_name (some bytes) = certificates_name (libraries.parse_certificates bytes)

  abbrev pub content_name : Option (List ℕ) → Option Text
  content_name none = none
  content_name (some bytes) = signed_name (libraries.signed_data bytes)

  -- `extractCNFromCMS`; `none` is an error.
  unfoldable pub extract_cn_from_cms : List ℕ → Option Text
  unfolding leaf_certificate
  extract_cn_from_cms cms = content_name (libraries.content_info cms)

  abbrev pub cms_info : SigningInfo → List ℕ → SigningInfo
  cms_info info [] = info
  cms_info info (b ∷ bs) = with_name info (extract_cn_from_cms (b ∷ bs))

  unfoldable pub extract_from_file : Option CodeSignature → Extracted
  unfolding extract_cn_from_cms
  extract_from_file none = not_extracted no_code_signature
  extract_from_file (some cs) = not_ad_hoc (cms_info (info_of cs.code_directories) cs.cms_signature)

  abbrev pub first_architecture : Option (List (Option CodeSignature)) → Extracted
  first_architecture none = not_extracted not_macho
  first_architecture (some []) = not_extracted no_architectures
  first_architecture (some (f ∷ fs)) = extract_from_file f

  abbrev pub opened : List ℕ → Option (Option CodeSignature) → Extracted
  opened content (some f) = extract_from_file f
  opened content none = first_architecture (libraries.open_fat content)

  unfoldable pub extract_signing_info : List ℕ → Extracted
  unfolding extract_from_file
  extract_signing_info content = opened content (libraries.open_macho content)

  abbrev pub is_identity : Text → Extracted → Bool
  is_identity required (not_extracted e) = false
  is_identity required (extracted info) = text_eq info.common_name required

  -- Whether `ValidateSigningIdentity` answers nil.
  unfoldable pub validate_signing_identity : List ℕ → Text → Bool
  unfolding extract_signing_info
  validate_signing_identity content required = is_identity required (extract_signing_info content)

  abbrev pub extracted_name : Extracted → Option Text
  extracted_name (not_extracted e) = none
  extracted_name (extracted info) = some info.common_name

  -- The name that `Upload` takes from `ExtractSigningInfo`.
  unfoldable pub signer_name : List ℕ → Option Text
  unfolding extract_signing_info
  signer_name content = extracted_name (extract_signing_info content)
