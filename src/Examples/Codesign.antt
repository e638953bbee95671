-- ===== src/Examples/Codesign.antt =====
-- An upload of a signed binary.
use mini_control_public.Prelude.{refl, true, false, List, [], ◌∷◌, none, some}
use mini_control_public.Text.{Text, codes}
use mini_control_public.ReleaseStore.{upload}
use mini_control_public.Codesign.{Libraries, Certificate, validate_signing_identity, signer_name}
use mini_control_public.Codesign.Required.{HasIdentity, upload-HasIdentity}
use mini_control_public.Examples.Releases.{below, inside, plain, nothing}

abbrev developer : Text
developer = codes "Dev"

abbrev chain : List Certificate
chain =
    record { is_ca = true; common_name = codes "Root" }
    ∷ record { is_ca = false; common_name = developer }
    ∷ []

abbrev reads_all : Libraries
reads_all = record {
  open_macho = λ content. some (some (record { code_directories = []; cms_signature = content }));
  open_fat = λ content. none;
  content_info = λ bytes. some bytes;
  signed_data = λ bytes. some bytes;
  parse_certificates = λ bytes. some chain;
}

upload-HasIdentity_example :
    HasIdentity reads_all developer
      (7 ∷ [])
      (upload
        (codes "r")
        below
        inside
        plain
        (validate_signing_identity reads_all)
        (signer_name reads_all)
        50
        (codes "u")
        developer
        (codes "1.0")
        (7 ∷ [])
        nothing).0
upload-HasIdentity_example =
    upload-HasIdentity reads_all developer (7 ∷ []) (codes "r") below inside plain refl 50
      (codes "u") (codes "1.0") nothing
