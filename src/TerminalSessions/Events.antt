-- ===== src/TerminalSessions/Events.antt =====
-- The events that change a terminal session, one after another.
use mini_control_public.Prelude.{
  ℕ, zero, suc, ◌+◌, Bool, List, [], ◌∷◌, Option, none, some, if◌then◌else◌,
}
use mini_control_public.TerminalSessions.{
  Cause, TerminalSession, Outside, Received, Turn, end_stream, wait_for_exit, expire, publish,
  at_attachment, write_loop, begin_attach, receive, cleared,
}

-- What happens to a session: a browser attaches, while the reader of the one before it clears its
-- attachment or does not; a message of the browser `conn` is read, or its
-- read fails; a chunk of output is read, or the output ends; the shell exits; the goroutine of the
-- attachment writes; the idle timer runs out; its function calls `close`. A timer that has run out
-- may do so again here, which `closeOnce` makes harmless.
pub data Event : Type 0 where
  attaches : List (List (List ℕ)) → ℕ → ℕ → ℕ → Bool → Bool → Event
  reads : ℕ → Received → Event
  hangs_up : ℕ → Event
  prints : List ℕ → Event
  stream_ends : Cause → Event
  exits : Option Cause → Event
  writes_out : List Turn → Event
  fires : Event
  expires : Event

abbrev pub fire : TerminalSession → TerminalSession
fire t = if t.live.idle_timer then record t { fired = t.fired + 1 } else t

abbrev pub expire_fired :
    (TerminalSession → TerminalSession) → ℕ → TerminalSession → TerminalSession
expire_fired closes zero t = t
expire_fired closes (suc n) t = closes (record t { fired = n })

module _ (outside : Outside) where
  -- A round of `readInput`, and the end of `Attach` if it is the last.
  abbrev pub after_round : ℕ → TerminalSession × Option Cause → TerminalSession
  after_round conn (t, none) = t
  after_round conn (t, some e) = cleared outside conn t

  unfoldable pub happen : Event → TerminalSession → TerminalSession
  unfolding begin_attach receive publish end_stream wait_for_exit expire
  happen (attaches rounds conn cols rows recovered clears) t =
      (begin_attach outside rounds conn cols rows recovered clears t).0
  happen (reads conn r) t = after_round conn (receive outside r t)
  happen (hangs_up conn) t = cleared outside conn t
  happen (prints chunk) t = record t { live = publish outside chunk t.live }
  happen (stream_ends e) t = end_stream outside e t
  happen (exits e) t = wait_for_exit outside e t
  happen (writes_out turns) t = record t {
    live = at_attachment (write_loop turns) t.live t.live.attachment;
  }
  happen fires t = fire t
  happen expires t = expire_fired (expire outside) t.fired t

  unfoldable pub happen_all : List Event → TerminalSession → TerminalSession
  unfolding happen
  happen_all [] t = t
  happen_all (e ∷ es) t = happen_all es (happen e t)
