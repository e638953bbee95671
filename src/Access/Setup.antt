-- ===== src/Access/Setup.antt =====
-- `NewAccessVerifier`. `parse_url` is `url.Parse`: the host of a URL, and the URL with its path,
-- query and fragment emptied.
use mini_control_public.Prelude.{ℕ, [], ◌++◌, Option, none, some, if◌then◌else◌, not}
use mini_control_public.Text.{Text, codes, trim_space}
use mini_control_public.Strings.{contains, trim_right}
use mini_control_public.Http.{is_empty}
use mini_control_public.Access.{AccessVerifier, normalize_access_email_domain}

-- The settings of `HandlerConfig` about access tokens.
pub record AccessConfig : Type 0 where
  pub access_aud : Text
  pub access_issuer_url : Text
  pub access_jwks_url : Text
  pub access_team_domain : Text
  pub access_allowed_email_domain : Text

pub data Setup : Type 0 where
  -- no verifier, and no error
  unconfigured : Setup
  access_team_domain_is_required : Setup
  invalid_access_team_domain : Setup
  configured : AccessVerifier → Setup

abbrev with_scheme : Text → Text
with_scheme raw = if contains raw (codes "://") then raw else codes "https://" ++ raw

abbrev certs_or_default : Text → Text → Text
certs_or_default issuer certs =
    if is_empty certs then issuer ++ codes "/cdn-cgi/access/certs" else certs

module _ (lower_rune : ℕ → ℕ) (parse_url : Text → Option (Text × Text)) where
  abbrev with_issuer : AccessConfig → Text → Setup
  with_issuer cfg issuer = configured (record {
    audience = cfg.access_aud;
    issuer_url = issuer;
    certs_url = certs_or_default issuer (trim_space cfg.access_jwks_url);
    allowed_email_domain = normalize_access_email_domain lower_rune cfg.access_allowed_email_domain;
    keys = [];
    fetched_at = none;
  })

  from_team_domain : AccessConfig → Option (Text × Text) → Setup
  from_team_domain cfg none = invalid_access_team_domain
  from_team_domain cfg (some (host, url)) =
      if is_empty host then invalid_access_team_domain else with_issuer cfg (trim_right b'/' url)

  unfoldable pub new_access_verifier : AccessConfig → Setup
  unfolding from_team_domain
  new_access_verifier cfg =
      let issuer = trim_right b'/' cfg.access_issuer_url in
      if is_empty cfg.access_aud
      then unconfigured
      else if not (is_empty issuer)
      then with_issuer cfg issuer
      else if is_empty cfg.access_team_domain
      then access_team_domain_is_required
      else from_team_domain cfg (parse_url (with_scheme (trim_space cfg.access_team_domain)))
