-- ===== src/Routes.antt =====
-- RegisterRoutes of server/internal/api/rest/handler.go, and how http.ServeMux picks a pattern: a
-- pattern matches a request if the method is its own, or HEAD for GET, and so are the elements of the
-- path, where an element in braces stands for any that is not empty.
pub mod Picked
use mini_control_public.Prelude.{
  ℕ, Bool, true, false, ◌&&◌, ◌||◌, not, List, [], ◌∷◌, Option, none, some, find_if, ◌==◌,
  if◌then◌else◌,
}
use mini_control_public.Text.{Text, codes, text_eq}
use mini_control_public.Strings.{split}
use mini_control_public.Http.{is_empty}

pub data Endpoint : Type 0 where
  install_script health me list_my_workstations get_my_workstation claim_my_workstation : Endpoint
  release_my_workstation list_workers create_proxy_session browser_terminal_ws : Endpoint
  pending_proxy_sessions proxy_web_socket release_upload release_upload_binary : Endpoint
  release_latest release_download assign_hostname worker_register worker_heartbeat : Endpoint
  vm_state : Endpoint

-- `requireBrowserHost` and `requireWorkerHost`.
pub data Side : Type 0 where
  any_host browser_host worker_host : Side

-- The guard of the credentials behind that of the host.
pub data Credential : Type 0 where
  no_credential access_auth admin_auth worker_auth enrollment_auth : Credential

pub record Route : Type 0 where
  pub method : Text
  pub pattern : Text
  pub side : Side
  pub credential : Credential
  pub endpoint : Endpoint

abbrev pub route : Text → Text → Side → Credential → Endpoint → Route
route method pattern side credential endpoint = record {
  method = method;
  pattern = pattern;
  side = side;
  credential = credential;
  endpoint = endpoint;
}

abbrev pub method_get : Text
method_get = codes "GET"

abbrev pub method_post : Text
method_post = codes "POST"

abbrev pub method_put : Text
method_put = codes "PUT"

-- `RegisterRoutes`, in its order.
abbrev pub register_routes : List Route
register_routes =
    route method_get (codes "/install.sh") worker_host no_credential install_script
    ∷ route method_get (codes "/api/v1/health") any_host no_credential health
    ∷ route method_get (codes "/api/v1/me") browser_host access_auth me
    ∷ route method_get (codes "/api/v1/my-workstations") browser_host access_auth
        list_my_workstations
    ∷ route method_get (codes "/api/v1/my-workstation") browser_host access_auth get_my_workstation
    ∷ route method_post (codes "/api/v1/my-workstation/claim") browser_host access_auth
        claim_my_workstation
    ∷ route method_post (codes "/api/v1/my-workstation/release") browser_host access_auth
        release_my_workstation
    ∷ route method_get (codes "/api/v1/browser/workers") browser_host access_auth list_workers
    ∷ route method_post (codes "/api/v1/browser/proxy-sessions") browser_host access_auth
        create_proxy_session
    ∷ route method_get (codes "/api/v1/browser/terminal/ws") browser_host access_auth
        browser_terminal_ws
    ∷ route method_get (codes "/api/v1/workers") browser_host admin_auth list_workers
    ∷ route method_post (codes "/api/v1/proxy/sessions") browser_host admin_auth
        create_proxy_session
    ∷ route method_get (codes "/api/v1/proxy/sessions/pending") worker_host worker_auth
        pending_proxy_sessions
    ∷ route method_get (codes "/api/v1/proxy/ws") any_host no_credential proxy_web_socket
    ∷ route method_post (codes "/api/v1/releases/upload") worker_host admin_auth release_upload
    ∷ route method_put (codes "/api/v1/releases/upload/{version}") worker_host admin_auth
        release_upload_binary
    ∷ route method_get (codes "/api/v1/releases/latest") worker_host no_credential release_latest
    ∷ route method_get (codes "/api/v1/releases/download/{version}") worker_host no_credential
        release_download
    ∷ route method_post (codes "/api/v1/hostname/assign") worker_host enrollment_auth
        assign_hostname
    ∷ route method_post (codes "/api/v1/workers/register") worker_host no_credential worker_register
    ∷ route method_post (codes "/api/v1/workers/{id}/heartbeat") worker_host worker_auth
        worker_heartbeat
    ∷ route method_put (codes "/api/v1/vms/{id}/state") worker_host worker_auth vm_state
    ∷ []

abbrev pub is_wildcard : Text → Bool
is_wildcard [] = false
is_wildcard (c ∷ cs) = c == b'{'

-- Whether an element of a pattern matches one of a path.
abbrev pub element_matches : Text → Text → Bool
element_matches p s = if is_wildcard p then not (is_empty s) else text_eq p s

unfoldable pub elements_match : List Text → List Text → Bool
elements_match [] [] = true
elements_match [] (s ∷ ss) = false
elements_match (p ∷ ps) [] = false
elements_match (p ∷ ps) (s ∷ ss) =
    let rest = elements_match ps ss in if element_matches p s then rest else false

abbrev pub method_matches : Text → Text → Bool
method_matches of_route method =
    text_eq of_route method || (text_eq of_route method_get && text_eq method (codes "HEAD"))

unfoldable pub route_matches : Text → Text → Route → Bool
unfolding elements_match
route_matches method path r =
    method_matches r.method method && elements_match (split b'/' r.pattern) (split b'/' path)

-- The route of a request, or none, which leaves it to the static files, or to a 404 or 405.
unfoldable pub pick_route : Text → Text → Option Route
unfolding route_matches
pick_route method path = find_if (route_matches method path) register_routes
