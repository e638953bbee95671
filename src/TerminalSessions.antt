-- ===== src/TerminalSessions.antt =====
-- server/internal/api/rest/terminal_sessions.go: the life of a terminal session, from `Create` to
-- `close`. The ID of a session, a new UUID, stands for the pointer to it: the manager is the list of
-- all sessions, and `listed` says that its map holds the session. What the source does in one
-- critical section, in one call of `closeOnce` or in one round of a loop is one function; `begin_close`
-- and `give_up` are the steps of `closeOnce`, and `Managed` puts them between other events.
pub mod Input
pub mod Events
pub mod Kept
pub mod Sound
pub mod Later
pub mod Expiry
pub mod Closing
pub mod Managed
use mini_control_public.Prelude.{
  ℕ, zero, suc, ◌+◌, ◌-◌, Bool, true, false, ◌&&◌, ◌||◌, List, [], ◌∷◌, ◌++◌, Option, none, some,
  find_if, update_where, drop, ltb, ◌==◌, if◌then◌else◌,
}
use mini_control_public.Text.{Text, codes, text_eq}
use mini_control_public.Access.{ℤ, pos, negsuc}
use mini_control_public.Http.{is_empty}
use mini_control_public.Terminal.{
  MessageType, message_text, message_binary, History, new_history, publish_binary,
}
use mini_control_public.Attach.{
  Attachment, AttachError, Session, Answer, attached, refused, replaying, OutboundMessage, send,
  if_sent, attach, close_attachment, stop_idle_timer, write_out,
}

-- `websocket.StatusCode`, as far as the source names them.
pub data StatusCode : Type 0 where
  normal_closure going_away policy_violation internal_error : StatusCode

-- The errors that the source tells apart; `other_error` is any further one.
pub data Cause : Type 0 where
  eof net_closed canceled deadline_exceeded bad_json other_error : Cause
  close_frame : StatusCode → Cause
  attach_error : AttachError → Cause

pub record TerminalClientMessage : Type 0 where
  pub kind : Text
  pub input : Text
  pub cols : ℤ
  pub rows : ℤ

pub record TerminalServerMessage : Type 0 where
  pub kind : Text
  pub message : Text
  pub session_id : Text
  pub recovered : Bool

-- What is asked of the SSH session.
pub data SshCall : Type 0 where
  write_string : Text → SshCall
  window_change : ℕ → ℕ → SshCall

-- What `close` gives up, in its order.
pub data Resource : Type 0 where
  the_ssh_session the_ssh_client the_proxy_conn the_cleanup : Resource

-- `close_once` says whether `closeOnce` has run, `cancelled` whether `ctx` is done; `fired` counts
-- the functions of idle timers that run but have not called `close` yet; `calls` is what the SSH
-- session was asked, and `released` what was closed, in order.
pub record TerminalSession : Type 0 where
  pub id : Text
  pub member_id : Text
  pub workstation_id : Text
  pub worker_id : Text
  pub live : Session
  pub listed : Bool
  pub cancelled : Bool
  pub close_once : Bool
  pub fired : ℕ
  pub calls : List SshCall
  pub released : List Resource

-- What is not the server's: JSON, the errors of the SSH session as its calls come, and the schedule
-- of the goroutines that write to browsers.
pub record Outside : Type 0 where
  pub marshal : TerminalServerMessage → List ℕ
  pub ssh : List SshCall → Option Cause
  pub chooses : Attachment → Bool
  pub drained : Attachment → ℕ

abbrev pub named : Text → TerminalSession → Bool
named i t = text_eq t.id i

-- `delete(m.sessions, sessionID)`, and an entry that gives way to one of the same key.
abbrev pub unlist : TerminalSession → TerminalSession
unlist t = record t { listed = false }

-- A session as `Create` makes it.
abbrev pub new_terminal : Text → Text → Text → Text → TerminalSession
new_terminal uuid member_id workstation_id worker_id = record {
  id = uuid;
  member_id = member_id;
  workstation_id = workstation_id;
  worker_id = worker_id;
  live = record { history = new_history; attachment = none; idle_timer = false; detached = [] };
  listed = true;
  cancelled = false;
  close_once = false;
  fired = 0;
  calls = [];
  released = [];
}

-- A further step of `close`: one of its resources is given up.
abbrev pub give_up : Resource → TerminalSession → TerminalSession
give_up r t = record t { released = t.released ++ r ∷ [] }

unfoldable pub create_terminal :
    Text → Text → Text → Text → List TerminalSession → List TerminalSession
create_terminal uuid member_id workstation_id worker_id ts =
    new_terminal uuid member_id workstation_id worker_id ∷ update_where (named uuid) unlist ts

unfoldable pub get_terminal : Text → List TerminalSession → Option TerminalSession
get_terminal i ts = find_if (λ t. t.listed && named i t) ts

-- `scheduleIdleTimeoutLocked`.
abbrev pub schedule_idle_timeout : Session → Session
schedule_idle_timeout s = if s.history.closed then s else record s { idle_timer = true }

abbrev pub release_attachment : ℕ → Session → Option Attachment → Session
release_attachment conn s none = s
release_attachment conn s (some a) =
    if a.conn == conn
    then schedule_idle_timeout
        (record s { attachment = none; detached = close_attachment a ∷ s.detached })
    else s

-- `clearAttachment`. An attachment that is not the current one was closed when it was let go.
unfoldable pub clear_attachment : ℕ → Session → Session
clear_attachment conn s = release_attachment conn s s.attachment

-- A round of the goroutine of an attachment: which case its `select` takes, and whether the write
-- that follows succeeds.
pub data Turn : Type 0 where
  session_done attachment_done : Turn
  writes : Bool → Turn

unfoldable pub write_loop : List Turn → Attachment → Attachment
write_loop [] a = a
write_loop (writes true ∷ turns) a = write_loop turns (write_out 1 a)
write_loop (writes false ∷ turns) a = close_attachment (record a { outbound = drop 1 a.outbound })
write_loop (session_done ∷ turns) a = close_attachment a
write_loop (attachment_done ∷ turns) a = close_attachment a

abbrev pub at_attachment : (Attachment → Attachment) → Session → Option Attachment → Session
at_attachment f s none = s
at_attachment f s (some a) = record s { attachment = some (f a) }

abbrev pub unexpected : Text
unexpected = codes "Terminal session ended unexpectedly."

abbrev pub all_resources : List Resource
all_resources = the_ssh_session ∷ the_ssh_client ∷ the_proxy_conn ∷ the_cleanup ∷ []

-- Whether a session's `err` at the end of its output is none to report.
abbrev pub ends_quietly : Cause → Bool
ends_quietly eof = true
ends_quietly net_closed = true
ends_quietly canceled = true
ends_quietly e = false

abbrev pub is_exit : Option Cause → Bool
is_exit none = true
is_exit (some eof) = true
is_exit (some canceled) = true
is_exit (some e) = false

-- The errors of `readInput` for which `Attach` answers nil.
abbrev pub swallowed : Cause → Option Cause
swallowed canceled = none
swallowed (close_frame normal_closure) = none
swallowed (close_frame going_away) = none
swallowed e = some e

-- A message that comes from the browser; `none` where it is no JSON of the type.
pub data Received : Type 0 where
  received : MessageType → Option TerminalClientMessage → Received

-- Where `Attach` is once its lock is free: it reads, it fails, or it still replays.
pub data Begun : Type 0 where
  reading : Begun
  broken : Cause → Begun
  under_way : Begun

module _ (outside : Outside) where
  abbrev pub send_to : OutboundMessage → Attachment → Attachment × Option AttachError
  send_to = send outside.chooses outside.drained

  -- The frame for the attachment of the moment, behind the critical section of `publishBinary`.
  abbrev pub deliver : List ℕ → Session → Option Attachment → Session
  deliver payload s none = s
  deliver payload s (some a) =
      if_sent (λ b. record s { attachment = some b })
        (λ b e. clear_attachment b.conn (record s { attachment = some b }))
        (send_to (record { message = message_binary; payload = payload }) a)

  -- `publishBinary`.
  unfoldable pub publish : List ℕ → Session → Session
  publish payload s =
      if s.history.closed
      then s
      else deliver payload (record s { history = publish_binary payload s.history }) s.attachment

  abbrev pub farewell : StatusCode → Text → Attachment → Attachment
  farewell normal_closure message a = a
  farewell code message a =
      (send_to
        (record {
          message = message_text;
          payload = outside.marshal (record {
            kind = codes "error";
            message = message;
            session_id = [];
            recovered = false;
          });
        })
        a).0

  abbrev pub dismiss : StatusCode → Text → Session → Option Attachment → Session
  dismiss code message s none = s
  dismiss code message s (some a) = record s {
    attachment = none;
    detached = close_attachment (farewell code message a) ∷ s.detached;
  }

  -- The first step of `close`: the context is cancelled, and one critical section, with the
  -- attachment of the moment, marks the session closed.
  abbrev pub begin_close : StatusCode → Text → TerminalSession → Option Attachment → TerminalSession
  begin_close code message t o = record t {
    close_once = true;
    cancelled = true;
    live =
        dismiss code message
          (stop_idle_timer (record t.live { history = record t.live.history { closed = true } })) o;
  }

  -- What `closeOnce` runs, all of it at once, with the attachment of the moment. What it closes is there in every
  -- session that the handler makes.
  abbrev pub shut_terminal :
      StatusCode → Text → TerminalSession → Option Attachment → TerminalSession
  shut_terminal code message t o = record (begin_close code message t o) {
    released = t.released ++ all_resources;
    listed = false;
  }

  -- `close`.
  unfoldable pub close_terminal : StatusCode → Text → TerminalSession → TerminalSession
  close_terminal code message t =
      if t.close_once then t else shut_terminal code message t t.live.attachment

  -- What `streamOutput` does with an error.
  unfoldable pub end_stream : Cause → TerminalSession → TerminalSession
  unfolding close_terminal
  end_stream e t = if ends_quietly e then t else close_terminal internal_error unexpected t

  -- `streamOutput`: the chunks that are read, and the error behind them.
  unfoldable pub stream_output : List (List ℕ) → Cause → TerminalSession → TerminalSession
  unfolding publish end_stream
  stream_output [] e t = end_stream e t
  stream_output ([] ∷ chunks) e t = stream_output chunks e t
  stream_output ((b ∷ bs) ∷ chunks) e t =
      stream_output chunks e (record t { live = publish (b ∷ bs) t.live })

  unfoldable pub wait_for_exit : Option Cause → TerminalSession → TerminalSession
  unfolding close_terminal
  wait_for_exit e t =
      if is_exit e
      then close_terminal normal_closure (codes "terminal closed") t
      else close_terminal internal_error unexpected t

  -- The function of the idle timer.
  unfoldable pub expire : TerminalSession → TerminalSession
  unfolding close_terminal
  expire = close_terminal going_away (codes "terminal session expired")

  -- A call of the SSH session, and its error.
  unfoldable pub ask : SshCall → TerminalSession → TerminalSession × Option Cause
  ask c t = let calls = t.calls ++ c ∷ [] in (record t { calls = calls }, outside.ssh calls)

  -- `WindowChange`, unless a side is not positive.
  abbrev pub resize : ℤ → ℤ → TerminalSession → TerminalSession × Option Cause
  resize (pos (suc rows)) (pos (suc cols)) t = ask (window_change (suc rows) (suc cols)) t
  resize rows cols t = (t, none)

  -- A message of the type that it is read as.
  unfoldable pub obey : TerminalClientMessage → TerminalSession → TerminalSession × Option Cause
  unfolding ask
  obey msg t =
      if text_eq msg.kind (codes "input")
      then if is_empty msg.input then (t, none) else ask (write_string msg.input) t
      else if text_eq msg.kind (codes "resize")
      then resize msg.rows msg.cols t
      else (t, none)

  -- A round of the loop of `readInput` that reads something.
  unfoldable pub receive : Received → TerminalSession → TerminalSession × Option Cause
  unfolding obey
  receive (received message_binary msg) t = (t, none)
  receive (received message_text none) t = (t, some bad_json)
  receive (received message_text (some msg)) t = obey msg t

  -- What follows a round.
  abbrev pub next_round :
      (TerminalSession → TerminalSession × Cause)
      → TerminalSession × Option Cause
      → TerminalSession × Cause
  next_round rest (t, none) = rest t
  next_round rest (t, some e) = (t, e)

  -- `readInput`: the messages that come, and the error of the read behind them.
  unfoldable pub read_input : List Received → Cause → TerminalSession → TerminalSession × Cause
  unfolding receive
  read_input [] e t = (t, e)
  read_input (r ∷ rs) e t = next_round (read_input rs e) (receive r t)

  abbrev pub cleared : ℕ → TerminalSession → TerminalSession
  cleared conn t = record t { live = clear_attachment conn t.live }

  abbrev pub resized : ℕ → TerminalSession × Option Cause → TerminalSession × Begun
  resized conn (t, none) = (t, reading)
  resized conn (t, some e) = (cleared conn t, broken e)

  -- The end of `Attach` up to the call of `readInput`.
  abbrev pub first_size : ℕ → ℕ → ℕ → TerminalSession → Answer → TerminalSession × Begun
  first_size conn cols rows t attached =
      if ltb 0 rows && ltb 0 cols
      then resized conn (ask (window_change rows cols) t)
      else (t, reading)
  first_size conn cols rows t (refused e) = (t, broken (attach_error e))
  first_size conn cols rows t replaying = (t, under_way)

  -- `Attach` up to the call of `readInput`.
  unfoldable pub begin_attach :
      List (List (List ℕ)) → ℕ → ℕ → ℕ → Bool → Bool → TerminalSession → TerminalSession × Begun
  unfolding ask
  begin_attach rounds conn cols rows recovered reader_clears t =
      let ready =
        outside.marshal (record {
          kind = codes "ready";
          message = [];
          session_id = t.id;
          recovered = recovered;
        }) in
      let (s, answer) =
        attach outside.chooses outside.drained rounds ready conn reader_clears t.live in
      first_size conn cols rows (record t { live = s }) answer

  abbrev pub finish_attach : ℕ → TerminalSession × Cause → TerminalSession × Option Cause
  finish_attach conn (t, e) = (cleared conn t, swallowed e)

  -- `Attach` as a whole, where its replay comes to an end. Nothing else changes the session while
  -- it reads.
  abbrev pub served :
      ℕ → List Received → Cause → TerminalSession × Begun → TerminalSession × Option Cause
  served conn rs e (t, reading) = finish_attach conn (read_input rs e t)
  served conn rs e (t, broken cause) = (t, some cause)
  served conn rs e (t, under_way) = (t, none)

  unfoldable pub attach_and_read :
      List (List (List ℕ))
      → ℕ
      → ℕ
      → ℕ
      → Bool
      → Bool
      → List Received
      → Cause
      → TerminalSession
      → TerminalSession × Option Cause
  unfolding begin_attach read_input clear_attachment
  attach_and_read rounds conn cols rows recovered reader_clears rs e t =
      served conn rs e (begin_attach rounds conn cols rows recovered reader_clears t)
