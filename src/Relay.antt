-- ===== src/Relay.antt =====
-- server/internal/proxy/relay.go: the frames that are copied between a client and a worker, and the
-- end of handleProxyWebSocket of server/internal/api/rest/proxy_sessions.go. A round of `copyWS` is
-- what its four calls come to; the two goroutines run in any order, which is a list of rounds.
pub mod Copied
use mini_control_public.Prelude.{
  ℕ, Bool, true, false, List, [], ◌∷◌, ◌++◌, Option, none, some, if◌then◌else◌,
}
use mini_control_public.Text.{Text}
use mini_control_public.Terminal.{MessageType}
use mini_control_public.Proxy.{ProxySession, SessionManager, close}

pub record Frame : Type 0 where
  pub message : MessageType
  pub payload : List ℕ

pub data CopyError : Type 0 where
  no_reader no_writer copy_failed close_failed : CopyError

-- A frame is there for the other side once its writer is closed.
pub data Round : Type 0 where
  copies : Frame → Round
  breaks : CopyError → Round

-- `copyWS`, as far as its rounds are given: the frames that arrive, and the error that ends it.
unfoldable pub copy_ws : List Round → List Frame × Option CopyError
copy_ws [] = ([], none)
copy_ws (copies f ∷ rs) = let rest = copy_ws rs in (f ∷ rest.0, rest.1)
copy_ws (breaks e ∷ rs) = ([], some e)

pub data Direction : Type 0 where
  client_to_worker worker_to_client : Direction

-- A goroutine: what it has delivered, and its error once it has ended.
pub record Copier : Type 0 where
  pub delivered : List Frame
  pub ended : Option CopyError

-- The two goroutines, and the first result that `Relay` takes from the channel.
pub record Relaying : Type 0 where
  pub to_worker : Copier
  pub to_client : Copier
  pub result : Option (Direction × CopyError)

abbrev pub new_relay : Relaying
new_relay = record {
  to_worker = record { delivered = []; ended = none };
  to_client = record { delivered = []; ended = none };
  result = none;
}

abbrev pub copy_round : Round → Copier → Copier
copy_round (copies f) c = record c { delivered = c.delivered ++ f ∷ [] }
copy_round (breaks e) c = record c { ended = some e }

-- A round, unless the loop has ended.
abbrev pub round_of : Option CopyError → Round → Copier → Copier
round_of none r c = copy_round r c
round_of (some e) r c = c

abbrev pub result_of : Direction → Option CopyError → Option (Direction × CopyError)
result_of d none = none
result_of d (some e) = some (d, e)

abbrev pub first_result :
    Option (Direction × CopyError) → Option (Direction × CopyError) → Option (Direction × CopyError)
first_result none r = r
first_result (some r) s = some r

-- A round of one of the goroutines, which sends its result when it ends.
unfoldable pub relay_round : Direction → Round → Relaying → Relaying
relay_round client_to_worker r st =
    let c = round_of st.to_worker.ended r st.to_worker in
    record st {
      to_worker = c;
      result = first_result st.result (result_of client_to_worker c.ended);
    }
relay_round worker_to_client r st =
    let c = round_of st.to_client.ended r st.to_client in
    record st {
      to_client = c;
      result = first_result st.result (result_of worker_to_client c.ended);
    }

unfoldable pub relay_rounds : List (Direction × Round) → Relaying → Relaying
unfolding relay_round
relay_rounds [] st = st
relay_rounds ((d, r) ∷ rs) st = relay_rounds rs (relay_round d r st)

abbrev pub both_conns : Option ℕ → Option ℕ → Option (ℕ × ℕ)
both_conns none w = none
both_conns (some c) none = none
both_conns (some c) (some w) = some (c, w)

-- The connections that `Relay` copies between, if it starts: the client's and the worker's.
-- `waits` says whether the session gets ready before the request is over.
unfoldable pub relay_between : Bool → ProxySession → Option (ℕ × ℕ)
relay_between waits s = if waits then both_conns s.client_conn s.worker_conn else none

-- What ends the wait of a handler whose side came first.
pub data Wait : Type 0 where
  session_is_done request_is_over : Wait

-- The end of `handleProxyWebSocket`, behind `SetConn` and the relay.
unfoldable pub leave_web_socket : Bool → Wait → Text → SessionManager → SessionManager
leave_web_socket true w i sm = close i sm
leave_web_socket false session_is_done i sm = sm
leave_web_socket false request_is_over i sm = close i sm
