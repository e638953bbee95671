-- ===== src/Startup.antt =====
-- server/internal/config/config.go, what server/cmd/minicontrol-server/main.go makes of the settings,
-- and the handlers of the install script and of /api/v1/me. YAML and the file system are parameters.
use mini_control_public.Prelude.{
  ◌≡◌, refl, Bool, true, false, ◌&&◌, not, List, [], ◌∷◌, ◌++◌, Option, none, some, if◌then◌else◌,
  Bool-cases, inl, inr,
}
use mini_control_public.Text.{Text, codes}
use mini_control_public.Strings.{cut_prefix}
use mini_control_public.Model.{Member}
use mini_control_public.Access.{ℤ, pos}
use mini_control_public.Http.{Reply, reply, refuse, unauthorized, is_empty}
use mini_control_public.BrowserTerminal.{Settings}

pub record Config : Type 0 where
  pub http_addr : Text
  pub database_url : Text
  pub tls_cert_file : Text
  pub tls_key_file : Text
  pub default_pool_size : ℤ
  pub default_base_image : Text
  pub admin_token : Text
  pub enrollment_token : Text
  pub worker_public_host : Text
  pub browser_public_host : Text
  pub access_team_domain : Text
  pub access_aud : Text
  pub access_issuer_url : Text
  pub access_jwks_url : Text
  pub access_allowed_email_domain : Text
  pub required_signing_identity : Text
  pub binary_storage_path : Text

unfoldable pub default_config : Config
default_config = record {
  http_addr = codes ":8080";
  database_url = codes "postgres://localhost:5432/minicontrol?sslmode=disable";
  tls_cert_file = [];
  tls_key_file = [];
  default_pool_size = pos 2;
  default_base_image = codes "minictl-tahoe-base";
  admin_token = [];
  enrollment_token = [];
  worker_public_host = [];
  browser_public_host = [];
  access_team_domain = [];
  access_aud = [];
  access_issuer_url = [];
  access_jwks_url = [];
  access_allowed_email_domain = [];
  required_signing_identity = [];
  binary_storage_path = codes "./releases";
}

abbrev loaded : (Text → Config → Option Config) → Option Text → Option Config
loaded unmarshal none = none
loaded unmarshal (some content) = unmarshal content default_config

-- `Load`: the file's settings over the defaults; `none` is an error.
unfoldable pub load : (Text → Option Text) → (Text → Config → Option Config) → Text → Option Config
unfolding default_config
load read_file unmarshal path = loaded unmarshal (read_file path)

pub record HandlerConfig : Type 0 where
  pub admin_token : Text
  pub enrollment_token : Text
  pub pool_size : ℤ
  pub base_image : Text
  pub http_addr : Text
  pub tls_enabled : Bool
  pub worker_public_host : Text
  pub browser_public_host : Text
  pub access_team_domain : Text
  pub access_aud : Text
  pub access_issuer_url : Text
  pub access_jwks_url : Text
  pub access_allowed_email_domain : Text

-- Both files are set, which is also when the server listens with TLS.
abbrev pub has_tls_files : Config → Bool
has_tls_files cfg = not (is_empty cfg.tls_cert_file) && not (is_empty cfg.tls_key_file)

unfoldable pub handler_config : Config → HandlerConfig
handler_config cfg = record {
  admin_token = cfg.admin_token;
  enrollment_token = cfg.enrollment_token;
  pool_size = cfg.default_pool_size;
  base_image = cfg.default_base_image;
  http_addr = cfg.http_addr;
  tls_enabled = has_tls_files cfg;
  worker_public_host = cfg.worker_public_host;
  browser_public_host = cfg.browser_public_host;
  access_team_domain = cfg.access_team_domain;
  access_aud = cfg.access_aud;
  access_issuer_url = cfg.access_issuer_url;
  access_jwks_url = cfg.access_jwks_url;
  access_allowed_email_domain = cfg.access_allowed_email_domain;
}

pub data Listening : Type 0 where
  listen_and_serve : Text → Listening
  listen_and_serve_tls : Text → Text → Text → Listening

-- How the HTTP server is started.
unfoldable pub start_server : Config → Listening
start_server cfg =
    if has_tls_files cfg
    then listen_and_serve_tls cfg.http_addr cfg.tls_cert_file cfg.tls_key_file
    else listen_and_serve cfg.http_addr

-- The path and the identity that the release store is made with, if there is one.
unfoldable pub release_store_of : Config → Option (Text × Text)
release_store_of cfg =
    if is_empty cfg.binary_storage_path
    then none
    else some (cfg.binary_storage_path, cfg.required_signing_identity)

-- The first script that can be read.
unfoldable pub find_install_script : (Text → Option Text) → List Text → Text
find_install_script read_file [] = []
find_install_script read_file (path ∷ paths) = elim (read_file path) [
  | none ↦ find_install_script read_file paths
  | some script ↦ script
]

abbrev pub install_script_paths : List Text
install_script_paths = codes "/etc/minicontrol/install.sh" ∷ codes "install/setup-host.sh" ∷ []

abbrev absolute_directory : (Text → Bool) → Option Text → Option Text
absolute_directory is_dir none = none
absolute_directory is_dir (some path) = if is_dir path then some path else none

-- The first candidate that is a directory, as it stands or made absolute.
unfoldable pub find_frontend_assets : (Text → Bool) → (Text → Option Text) → List Text → Option Text
find_frontend_assets is_dir abs [] = none
find_frontend_assets is_dir abs (path ∷ paths) =
    let rest = find_frontend_assets is_dir abs paths in
    if is_dir path
    then some path
    else elim (absolute_directory is_dir (abs path)) [ none ↦ rest | some found ↦ some found ]

abbrev pub frontend_candidates : List Text
frontend_candidates =
    codes "/var/lib/minicontrol/frontend" ∷ codes "../frontend/dist" ∷ codes "frontend/dist" ∷ []

-- `strings.Replace(s, old, new, 1)` for an `old` that is not empty.
unfoldable pub replace_once : Text → Text → Text → Text
replace_once old new [] = []
replace_once old new (c ∷ cs) =
    let rest = replace_once old new cs in
    elim (cut_prefix (c ∷ cs) old) [ none ↦ c ∷ rest | some after ↦ new ++ after ]

-- The body that `handleInstallScript` writes; `address` is that of `workerScriptAddress`.
unfoldable pub handle_install_script : Text → Text → Text
unfolding replace_once
handle_install_script script address = replace_once (codes "__SERVER_ADDR__") address script

unfoldable pub handle_me : Option Member → Reply Member
handle_me none = refuse 401 unauthorized
handle_me (some m) = reply 200 m

test_replace : handle_install_script (codes "A=__SERVER_ADDR__;") (codes "h") ≡ codes "A=h;"
unfolding handle_install_script replace_once cut_prefix
test_replace = refl

-- The address and the TLS of the server's own WebSocket for terminals.
abbrev pub terminal_settings : HandlerConfig → Settings
terminal_settings cfg = record {
  http_addr = cfg.http_addr;
  tls_enabled = cfg.tls_enabled;
  browser_public_host = cfg.browser_public_host;
}

abbrev listens_with_tls : Listening → Bool
listens_with_tls (listen_and_serve addr) = false
listens_with_tls (listen_and_serve_tls addr cert key) = true

-- A terminal dials with TLS exactly if the server listens with it.
terminal-tls :
    (cfg : Config)
    → (terminal_settings (handler_config cfg)).tls_enabled ≡ listens_with_tls (start_server cfg)
unfolding handler_config start_server
terminal-tls cfg = elim (Bool-cases (has_tls_files cfg)) [
  | inl both ↦ rw both refl
  | inr one ↦ rw one refl
]
