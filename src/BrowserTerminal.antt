-- ===== src/BrowserTerminal.antt =====
-- server/internal/api/rest/terminal.go: which terminal session a browser gets, and how one is opened.
-- Dialing, SSH, net.SplitHostPort, net.JoinHostPort and url.QueryEscape are parameters.
pub mod Joined
use mini_control_public.Prelude.{
  ℕ, ◌+◌, Bool, true, false, ◌&&◌, ◌||◌, not, List, [], ◌∷◌, ◌++◌, Option, none, some,
  if◌then◌else◌,
}
use mini_control_public.Text.{Text, codes, text_eq, trim_space}
use mini_control_public.Strings.{has_prefix}
use mini_control_public.Model.{Workstation, Member}
use mini_control_public.Db.{Db}
use mini_control_public.Http.{Message, is_empty, parse_positive_query_int}
use mini_control_public.Proxy
use mini_control_public.Proxy.{
  SessionManager, ProxySession, ProxyTarget, vm, host, new_session, create, close,
}
use mini_control_public.MyWorkstations.{
  WorkstationStore, Resolved, resolved, api_error, resolve_member_workstation,
}
use mini_control_public.ProxySessions.{is_running}
use mini_control_public.TerminalSessions.{
  StatusCode, policy_violation, internal_error, TerminalSession, create_terminal, get_terminal,
}

abbrev pub default_terminal_cols : ℕ
default_terminal_cols = 120

abbrev pub default_terminal_rows : ℕ
default_terminal_rows = 36

unfoldable pub terminal_credentials : ProxyTarget → Text × Text
terminal_credentials host = (codes "launchctl", codes "change-me")
terminal_credentials vm = (codes "admin", codes "admin")

-- The steps of `startTerminalSSHSession` that may fail.
pub data SshStep : Type 0 where
  connects opens_session pipes_stdout pipes_stderr pipes_stdin requests_pty starts_shell : SshStep

-- What an attempt has open when it fails, and closes then.
pub data Closing : Type 0 where
  closes_session closes_client : Closing

pub data Started : Type 0 where
  started : Started
  not_started : List Closing → Started

-- The steps behind the opening of the session.
abbrev pub steps_in_session : List SshStep
steps_in_session = pipes_stdout ∷ pipes_stderr ∷ pipes_stdin ∷ requests_pty ∷ starts_shell ∷ []

unfoldable pub in_session : (SshStep → Bool) → List SshStep → Started
in_session succeeds [] = started
in_session succeeds (s ∷ ss) =
    let rest = in_session succeeds ss in
    if succeeds s then rest else not_started (closes_session ∷ closes_client ∷ [])

-- `startTerminalSSHSession`.
unfoldable pub start_terminal_ssh_session : (SshStep → Bool) → Started
unfolding in_session
start_terminal_ssh_session succeeds =
    if not (succeeds connects)
    then not_started []
    else if not (succeeds opens_session)
    then not_started (closes_client ∷ [])
    else in_session succeeds steps_in_session

abbrev pub is_started : Started → Bool
is_started started = true
is_started (not_started c) = false

-- `url.QueryEscape`, the host and port of an address, and the way back.
pub record Net : Type 0 where
  pub query_escape : Text → Text
  pub split_host_port : Text → Option (Text × Text)
  pub join_host_port : Text → Text → Text

-- The settings that are used.
pub record Settings : Type 0 where
  pub http_addr : Text
  pub tls_enabled : Bool
  pub browser_public_host : Text

-- `websocket.DialOptions`: the host, where one is set, which X-Forwarded-Host then also is, and
-- whether certificates are not checked.
pub record DialOptions : Type 0 where
  pub host_name : Option Text
  pub insecure : Bool

abbrev pub is_any_host : Text → Bool
is_any_host name = is_empty name || text_eq name (codes "0.0.0.0") || text_eq name (codes "::")

abbrev pub loopback_of : Net → Option (Text × Text) → Option Text
loopback_of net none = none
loopback_of net (some (name, port)) =
    some (net.join_host_port (if is_any_host name then codes "127.0.0.1" else name) port)

-- `normalizeLoopbackHTTPAddr`; `none` is an error.
unfoldable pub normalize_loopback_http_addr : Net → Text → Option Text
normalize_loopback_http_addr net addr =
    if is_empty (trim_space addr)
    then none
    else if has_prefix addr (codes ":")
    then some (codes "127.0.0.1" ++ addr)
    else loopback_of net (net.split_host_port addr)

abbrev pub url_of : Bool → Text → Option Text → Option Text
url_of tls path none = none
url_of tls path (some host_port) =
    some ((if tls then codes "wss" else codes "ws") ++ (codes "://" ++ (host_port ++ path)))

-- `internalWebSocketURL`.
unfoldable pub internal_web_socket_url : Net → Settings → Text → Option Text
unfolding normalize_loopback_http_addr
internal_web_socket_url net settings path =
    url_of settings.tls_enabled path (normalize_loopback_http_addr net settings.http_addr)

module _ (normalize_host : Text → Text) where
  abbrev pub or_no_host : Text → Option Text
  or_no_host [] = none
  or_no_host (c ∷ cs) = some (c ∷ cs)

  -- `internalProxyDialOptions`, and the client that `dialInternalProxyWebSocket` adds.
  unfoldable pub internal_proxy_dial_options : Settings → DialOptions
  internal_proxy_dial_options settings = record {
    host_name = or_no_host (normalize_host settings.browser_public_host);
    insecure = settings.tls_enabled;
  }

-- The path of the WebSocket of a proxy session.
abbrev pub proxy_path : Net → ProxySession → Text
proxy_path net s =
    codes "/api/v1/proxy/ws?session="
    ++ (net.query_escape s.id ++ (codes "&role=client&token=" ++ net.query_escape s.token))

-- Why a browser's WebSocket is closed.
pub data Reason : Type 0 where
  says : Text → Reason
  explains : Message → Reason

pub data TerminalReply : Type 0 where
  turned_away not_accepted : TerminalReply
  closes_with : StatusCode → Reason → TerminalReply
  attaches_to : Text → Bool → TerminalReply

-- What the handler changes.
pub record Sessions : Type 0 where
  pub terminals : List TerminalSession
  pub proxy : SessionManager

-- The UUIDs, the random bytes and the time of the calls, and whether the outside goes along.
pub record Chance : Type 0 where
  pub terminal_uuid : Text
  pub proxy_uuid : Text
  pub token_bytes : List ℕ
  pub now : ℕ
  pub dials : Text → DialOptions → Bool
  pub starts : Text → Text → ℕ → ℕ → SshStep → Bool

module _ (normalize_host : Text → Text) (net : Net) (settings : Settings) (chance : Chance) where
  abbrev pub dials_url : Option Text → Bool
  dials_url none = false
  dials_url (some url) = chance.dials url (internal_proxy_dial_options normalize_host settings)

  -- Whether `dialInternalProxyWebSocket` gives a connection.
  unfoldable pub dial_internal_proxy_web_socket : ProxySession → Bool
  unfolding internal_web_socket_url internal_proxy_dial_options
  dial_internal_proxy_web_socket s =
      dials_url (internal_web_socket_url net settings (proxy_path net s))

  -- The proxy session of a terminal at a workstation.
  abbrev pub terminal_proxy_session : Workstation → ProxySession
  terminal_proxy_session w =
      new_session vm w.id w.worker_id 22 chance.proxy_uuid chance.token_bytes chance.now

  -- `startTerminalSSHSession` with the credentials of a VM.
  abbrev pub ssh_starts : ℕ → ℕ → Bool
  ssh_starts cols rows =
      let (user, password) = terminal_credentials vm in
      is_started (start_terminal_ssh_session (chance.starts user password cols rows))

  -- A new session at a workstation that runs.
  unfoldable pub open_terminal : Text → ℕ → ℕ → Workstation → Sessions → TerminalReply × Sessions
  unfolding dial_internal_proxy_web_socket
  open_terminal member_id cols rows w ss =
      let s = terminal_proxy_session w in
      let proxy = create s ss.proxy in
      if not (dial_internal_proxy_web_socket s)
      then (
        closes_with internal_error (says (codes "relay connection failed")),
        record ss { proxy = close s.id proxy },
      )
      else if not (ssh_starts cols rows)
      then (
        closes_with internal_error (says (codes "ssh connection failed")),
        record ss { proxy = close s.id proxy },
      )
      else (
        attaches_to chance.terminal_uuid false,
        record {
          terminals = create_terminal chance.terminal_uuid member_id w.id w.worker_id ss.terminals;
          proxy = proxy;
        },
      )

  abbrev pub join_workstation : Text → ℕ → ℕ → Sessions → Resolved → TerminalReply × Sessions
  join_workstation member_id cols rows ss (api_error status why) =
      (closes_with policy_violation (explains why), ss)
  join_workstation member_id cols rows ss (resolved w) =
      if not (is_running w.power_state)
      then (closes_with policy_violation (says (codes "workstation not running")), ss)
      else open_terminal member_id cols rows w ss

  abbrev pub recover : Text → Sessions → Option TerminalSession → TerminalReply × Sessions
  recover member_id ss none =
      (closes_with policy_violation (says (codes "terminal session not found")), ss)
  recover member_id ss (some t) =
      if not (text_eq t.member_id member_id)
      then (closes_with policy_violation (says (codes "terminal session unauthorized")), ss)
      else (attaches_to t.id true, ss)

  module _ (store : WorkstationStore Db) where
    -- `handleBrowserTerminalWebSocket` up to the call of `Attach`. `accepted` says whether the
    -- upgrade succeeds; the texts are those of the query.
    unfoldable pub handle_browser_terminal_web_socket :
        Bool → Option Member → Text → Text → Text → Text → Db → Sessions → TerminalReply × Sessions
    unfolding open_terminal
    handle_browser_terminal_web_socket accepted none cols rows session workstation db ss =
        (turned_away, ss)
    handle_browser_terminal_web_socket accepted (some m) cols rows session workstation db ss =
        if not accepted
        then (not_accepted, ss)
        else if not (is_empty (trim_space session))
        then recover m.id ss (get_terminal (trim_space session) ss.terminals)
        else join_workstation m.id (parse_positive_query_int cols default_terminal_cols)
            (parse_positive_query_int rows default_terminal_rows) ss
            (resolve_member_workstation store db (some m) (trim_space workstation))
