-- ===== src/Examples/Browsers.antt =====
-- A browser that opens a terminal, and a relay.
use mini_control_public.Prelude.{inl, inr, refl, true, false, List, [], ◌∷◌, ◌≡◌, ◌++◌, some}
use mini_control_public.Text.{codes, text_eq, trim_space}
use mini_control_public.Terminal.{message_binary}
use mini_control_public.Proxy.{new_session_manager, get}
use mini_control_public.BrowserTerminal.{
  Net, Settings, Chance, Sessions, handle_browser_terminal_web_socket,
}
use mini_control_public.MyWorkstations.Owned.{IsHeld}
use mini_control_public.BrowserTerminal.Joined.{Joined, terminal-Joined}
use mini_control_public.Relay.{
  Round, copies, breaks, no_reader, Direction, client_to_worker, worker_to_client, copy_ws,
  relay_rounds, new_relay,
}
use mini_control_public.Relay.Copied.{rounds_of, copier_of, first_break, relay-copy_ws}
use mini_control_public.StaticFiles.{Root, StaticRequest}
use mini_control_public.StaticFiles.Served.{Served}
use mini_control_public.Strings.{split}
use mini_control_public.Routes.{
  Route, route, any_host, no_credential, health, route_matches, elements_match, pick_route,
}
use mini_control_public.Routes.Picked.{IsGuarded, pick_route-only}
use mini_control_public.Examples.Workstations.{ann}
use mini_control_public.Examples.ProxySessions.{busy, busy_store}

abbrev plain_net : Net
plain_net = record {
  query_escape = λ t. t;
  split_host_port = λ t. some ([], codes "8080");
  join_host_port = λ h p. h ++ b':' ∷ p;
}

abbrev local : Settings
local = record { http_addr = codes ":8080"; tls_enabled = false; browser_public_host = [] }

abbrev lucky : Chance
lucky = record {
  terminal_uuid = codes "t";
  proxy_uuid = codes "s";
  token_bytes = 7 ∷ [];
  now = 50;
  dials = λ url options. true;
  starts = λ user password cols rows step. true;
}

abbrev no_sessions : Sessions
no_sessions = record { terminals = []; proxy = new_session_manager }

terminal-Joined_example :
    Joined
      (λ t. t)
      plain_net
      local
      lucky
      ann.id
      (IsHeld busy_store busy ann.id (codes "d"))
      no_sessions
      (handle_browser_terminal_web_socket
        (λ t. t)
        plain_net
        local
        lucky
        busy_store
        true
        (some ann)
        []
        []
        []
        (codes " d ")
        busy
        no_sessions)
unfolding new_session_manager get trim_space
terminal-Joined_example =
    terminal-Joined (λ t. t) plain_net local lucky busy_store true ann [] [] [] (codes " d ") busy
      no_sessions refl

abbrev talk : List (Direction × Round)
talk =
    (client_to_worker, copies (record { message = message_binary; payload = 1 ∷ [] }))
    ∷ (worker_to_client, copies (record { message = message_binary; payload = 2 ∷ [] }))
    ∷ (client_to_worker, breaks no_reader)
    ∷ (worker_to_client, copies (record { message = message_binary; payload = 3 ∷ [] }))
    ∷ []

relay-copy_ws_example :
    ((d : Direction)
      → ((copier_of d (relay_rounds talk new_relay)).delivered ≡ (copy_ws (rounds_of d talk)).0)
        × ((copier_of d (relay_rounds talk new_relay)).ended ≡ (copy_ws (rounds_of d talk)).1))
    × ((relay_rounds talk new_relay).result ≡ first_break talk)
relay-copy_ws_example = relay-copy_ws talk

abbrev site : Root
site = record { stat = λ name. false; read_file = λ name. some (60 ∷ []) }

abbrev page : StaticRequest
page = record { method = codes "GET"; host = []; path = codes "/a/../b"; query = [] }

-- `GET /api/v1/health`, whose route stands second in the table.
abbrev health_route : Route
health_route = route (codes "GET") (codes "/api/v1/health") any_host no_credential health

pick_route-only_example :
    (pick_route (codes "HEAD") (codes "/api/v1/health") ≡ some health_route)
    × IsGuarded health_route
unfolding route_matches elements_match split text_eq
pick_route-only_example =
    pick_route-only (codes "HEAD") (codes "/api/v1/health") health_route (inr (inl refl)) refl
