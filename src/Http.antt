-- ===== src/Http.antt =====
-- server/internal/api/rest/handler.go and auth.go: what the handlers share. A handler answers with a
-- `Reply`; messages are constructors, named after their text.
pub mod Tokens
use mini_control_public.Prelude.{
  ℕ, zero, suc, ◌+◌, ◌*◌, ◌-◌, Bool, true, false, ◌&&◌, ◌||◌, not, List, [], ◌∷◌, Option, none,
  some, leb, ltb, ◌==◌, if◌then◌else◌,
}
use mini_control_public.Text.{Text, codes, text_eq, trim_space}
use mini_control_public.Strings.{cut_prefix}
use mini_control_public.Decimal.{digits}
use mini_control_public.Db.{Error}

pub data Message : Type 0 where
  unauthorized invalid_json worker_id_mismatch workstation_not_found : Message
  failed_to_load_workstation failed_to_list_workstations failed_to_update_workstation : Message
  failed_to_claim_workstation workstation_id_is_required workstation_is_being_deleted : Message
  hostname_is_required hardware_uuid_is_required invalid_token registration_failed : Message
  failed_to_list_desired_workstations failed failed_to_assign_hostname failed_to_list_workers :
      Message
  workstation_does_not_belong_to_worker : Message
  port_is_required port_not_allowed host_access_is_not_available workstation_not_running : Message
  worker_id_is_required_for_host_target vm_id_is_required_for_vm_target vm_not_found : Message
  vm_not_available target_must_be_vm_or_host missing_parameters invalid_role : Message
  session_not_found : Message
  access_auth_not_configured missing_access_token invalid_access_token : Message
  failed_to_load_member : Message
  release_management_not_configured invalid_multipart_form version_is_required : Message
  invalid_version binary_file_is_required binary_body_is_required : Message
  release_version_already_exists no_releases_available version_not_found : Message
  release_unavailable upload_failed : Message
  -- `err.Error()` of an error of package db
  of_db : Error → Message
  -- `http.NotFound`, or a bare 404
  page_not_found : Message

-- What a handler writes: `writeJSON` with a value, `writeError`, or nothing, since it panics.
pub data Reply {ℓ} (A : Type ℓ) : Type ℓ where
  reply : ℕ → A → Reply A
  refuse : ℕ → Message → Reply A
  panic : Reply A

-- `r.Body` for a handler: nil, not the JSON that is wanted, or that.
pub data Body {ℓ} (A : Type ℓ) : Type ℓ where
  no_body bad_body : Body A
  body : A → Body A

-- `decodeJSONBody` of a body that may be nil, with the zero value for that.
abbrev pub with_body {ℓ κ} : {A : Type ℓ} {R : Type κ} → A → Body A → (A → R) → R → R
with_body zero_value no_body goes fails = goes zero_value
with_body zero_value bad_body goes fails = fails
with_body zero_value (body a) goes fails = goes a

abbrev pub is_empty : Text → Bool
is_empty [] = true
is_empty (c ∷ cs) = false

-- `bearerToken`.
unfoldable pub bearer_token : Text → Text
bearer_token header = elim (cut_prefix header (codes "Bearer ")) [
  | none ↦ []
  | some token ↦ trim_space token
]

-- `tokensMatch`; `ConstantTimeCompare` tells whether the bytes are the same.
unfoldable pub tokens_match : Text → Text → Bool
tokens_match expected actual =
    if is_empty expected || is_empty actual then false else text_eq expected actual

abbrev pub without_plus : Text → Text
without_plus [] = []
without_plus (c ∷ cs) = if c == b'+' then cs else c ∷ cs

abbrev pub int64_max : ℕ
int64_max = 9_223_372_036_854_775_807

abbrev pub positive_or : ℕ → Option ℕ → ℕ
positive_or fallback none = fallback
positive_or fallback (some n) = if ltb 0 n && leb n int64_max then n else fallback

-- `parsePositiveQueryInt`: `strconv.Atoi` reads `-5` too, but to a number that is not positive.
unfoldable pub parse_positive_query_int : Text → ℕ → ℕ
unfolding digits
parse_positive_query_int value fallback =
    positive_or fallback (digits (without_plus (trim_space value)))
