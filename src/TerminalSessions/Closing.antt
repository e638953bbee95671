-- ===== src/TerminalSessions/Closing.antt =====
-- `close` of a terminal session step by step, and what may come between its steps.
use mini_control_public.Prelude.{
  ℕ, zero, suc, ◌+◌, ◌≡◌, refl, ap, Bool, true, false, List, [], ◌∷◌, ◌++◌, Option, none, some,
  if-cases, sym, subst,
}
use mini_control_public.Text.{Text, codes}
use mini_control_public.Terminal.{message_binary, message_text}
use mini_control_public.Attach.{session_closed, Session, Answer, refused, attach}
use mini_control_public.TerminalSessions.{
  StatusCode, Cause, attach_error, canceled, bad_json, TerminalSession, Outside, SshCall, Received,
  close_terminal, end_stream, wait_for_exit, expire, ends_quietly, is_exit, publish,
  clear_attachment, release_attachment, at_attachment, write_loop, ask, begin_attach, broken,
  first_size, receive, cleared, going_away, internal_error, normal_closure, unexpected, received,
}
use mini_control_public.TerminalSessions.Events.{
  Event, attaches, reads, hangs_up, prints, stream_ends, exits, writes_out, fires, expires,
  expire_fired, after_round, happen,
}
use mini_control_public.TerminalSessions.Input.{asks, obey-asks, request_of}

-- Marked closed, by the first step of `close`.
abbrev pub Shut : TerminalSession → Type 0
Shut t =
    (t.live.history.closed ≡ true)
    × (t.close_once ≡ true)
    × (t.cancelled ≡ true)
    × (t.live.attachment ≡ none)
    × (t.live.idle_timer ≡ false)

-- Still shut, with what it gave up and its place in the map as they were.
abbrev pub StaysShut : TerminalSession → TerminalSession → Type 0
StaysShut t u = Shut u × (u.released ≡ t.released) × (u.listed ≡ t.listed)

module _ (outside : Outside) where
  cleared-same :
      (conn : ℕ) (t : TerminalSession) → t.live.attachment ≡ none → cleared outside conn t ≡ t
  unfolding clear_attachment
  cleared-same conn t e = ap (λ o. record t { live = release_attachment conn t.live o }) e

  attach-refused :
      (rounds : List (List (List ℕ))) (ready : List ℕ) (conn : ℕ) (clears : Bool) (s : Session)
      → s.history.closed ≡ true
      → attach outside.chooses outside.drained rounds ready conn clears s
        ≡ (s, refused session_closed)
  unfolding attach
  attach-refused rounds ready conn clears s h =
      if-cases {A = Session × Answer} (λ r. r ≡ (s, refused session_closed)) s.history.closed _ _
        (λ e. refl) (λ e. cc (e, h))

  pub begin_attach-refused :
      (rounds : List (List (List ℕ))) (conn cols rows : ℕ) (recovered clears : Bool)
      (t : TerminalSession)
      → t.live.history.closed ≡ true
      → begin_attach outside rounds conn cols rows recovered clears t
        ≡ (t, broken (attach_error session_closed))
  unfolding begin_attach
  begin_attach-refused rounds conn cols rows recovered clears t h =
      ap (λ r. first_size outside conn cols rows (record t { live = r.0 }) r.1)
        (attach-refused rounds _ conn clears t.live h)

  close-same :
      (code : StatusCode) (message : Text) (t : TerminalSession)
      → t.close_once ≡ true
      → close_terminal outside code message t ≡ t
  unfolding close_terminal
  close-same code message t h =
      if-cases {A = TerminalSession} (λ u. u ≡ t) t.close_once t _ (λ e. refl) (λ e. cc (e, h))

  module _ (t : TerminalSession) (h : Shut t) where
    round-Shut :
        (conn : ℕ) (calls : List SshCall) (o : Option Cause)
        → StaysShut t (after_round outside conn (record t { calls = calls }, o))
    round-Shut conn calls none = (h, refl, refl)
    round-Shut conn calls (some e) =
        subst (StaysShut t) (sym (cleared-same conn (record t { calls = calls }) h.3))
          (h, refl, refl)

    asks-Shut :
        (conn : ℕ) (o : Option SshCall) → StaysShut t (after_round outside conn (asks outside o t))
    unfolding ask
    asks-Shut conn none = (h, refl, refl)
    asks-Shut conn (some c) = round-Shut conn _ (outside.ssh (t.calls ++ c ∷ []))

    receive-Shut :
        (conn : ℕ) (r : Received) → StaysShut t (after_round outside conn (receive outside r t))
    unfolding receive
    receive-Shut conn (received message_binary msg) = (h, refl, refl)
    receive-Shut conn (received message_text none) = round-Shut conn t.calls (some bad_json)
    receive-Shut conn (received message_text (some msg)) =
        rw (obey-asks outside msg t) (asks-Shut conn (request_of msg))

    closed-Shut :
        (code : StatusCode) (message : Text) → StaysShut t (close_terminal outside code message t)
    closed-Shut code message =
        subst (StaysShut t) (sym (close-same code message t h.1)) (h, refl, refl)

    publish-Shut : (chunk : List ℕ) → StaysShut t (record t { live = publish outside chunk t.live })
    unfolding publish
    publish-Shut chunk =
        if-cases {A = Session} (λ s. StaysShut t (record t { live = s })) t.live.history.closed
          t.live _ (λ e. (h, refl, refl)) (λ e. cc (e, h.0))

    expired-Shut : (n : ℕ) → StaysShut t (expire_fired (expire outside) n t)
    unfolding expire
    expired-Shut zero = (h, refl, refl)
    expired-Shut (suc n) =
        subst (StaysShut t)
          (sym
            (close-same going_away (codes "terminal session expired") (record t { fired = n }) h.1))
          (h, refl, refl)

    pub happen-Shut : (e : Event) → StaysShut t (happen outside e t)
    unfolding happen end_stream wait_for_exit
    happen-Shut (attaches rounds conn cols rows recovered clears) =
        subst (λ r. StaysShut t r.0)
          (sym (begin_attach-refused rounds conn cols rows recovered clears t h.0)) (h, refl, refl)
    happen-Shut (reads conn r) = receive-Shut conn r
    happen-Shut (hangs_up conn) = round-Shut conn t.calls (some canceled)
    happen-Shut (prints chunk) = publish-Shut chunk
    happen-Shut (stream_ends e) =
        if-cases (StaysShut t) (ends_quietly e) t _ (λ q. (h, refl, refl))
          (λ q. closed-Shut internal_error unexpected)
    happen-Shut (exits e) =
        if-cases (StaysShut t) (is_exit e) _ _
          (λ q. closed-Shut normal_closure (codes "terminal closed"))
          (λ q. closed-Shut internal_error unexpected)
    happen-Shut (writes_out turns) =
        subst (λ o. StaysShut t (record t { live = at_attachment (write_loop turns) t.live o }))
          (sym h.3) (h, refl, refl)
    happen-Shut fires =
        if-cases (StaysShut t) t.live.idle_timer (record t { fired = t.fired + 1 }) t
          (λ e. cc (e, h.4)) (λ e. (h, refl, refl))
    happen-Shut expires = expired-Shut t.fired
