-- ===== src/TerminalSessions/Sound.antt =====
-- Terminal sessions are sound through their events.
use mini_control_public.Prelude.{
  ℕ, zero, suc, ◌+◌, ◌≡◌, ◌∙◌, refl, ap, List, [], ◌∷◌, ◌++◌, Option, none, some, if◌then◌else◌,
  if-cases, ltb, ◌&&◌, sym,
}
use mini_control_public.Text.{Text, codes}
use mini_control_public.Terminal.{message_binary, message_text}
use mini_control_public.Attach.{Attachment, Answer, attached, refused, replaying}
use mini_control_public.TerminalSessions.{
  StatusCode, Cause, TerminalSession, Outside, SshCall, Received, Begun, all_resources,
  shut_terminal, close_terminal, end_stream, wait_for_exit, expire, ends_quietly, is_exit,
  write_loop, ask, begin_attach, first_size, resized, receive, cleared, going_away, internal_error,
  normal_closure, unexpected, window_change, received,
}
use mini_control_public.TerminalSessions.Events.{
  Event, attaches, reads, hangs_up, prints, stream_ends, exits, writes_out, fires, expires, fire,
  expire_fired, after_round, happen, happen_all,
}
use mini_control_public.TerminalSessions.Kept.{
  Sound, at-Kept, clear-Kept, live-Sound, publish-Kept, attach-Kept,
}
use mini_control_public.TerminalSessions.Input.{asks, obey-asks, request_of}

module _ (outside : Outside) where
  pub cleared-Sound : (conn : ℕ) (t : TerminalSession) → Sound t → Sound (cleared outside conn t)
  cleared-Sound conn t h = live-Sound t _ h (clear-Kept conn t.live h.1)

  shut-Sound :
      (code : StatusCode) (message : Text) (t : TerminalSession) (o : Option Attachment)
      → t.live.attachment ≡ o
      → t.released ≡ []
      → Sound (shut_terminal outside code message t o)
  shut-Sound code message t none e r =
      ((refl, refl, λ b. refl, ap (λ l. l ++ all_resources) r), (e, refl))
  shut-Sound code message t (some a) e r =
      ((refl, refl, λ b. refl, ap (λ l. l ++ all_resources) r), (refl, refl))

  pub close-Sound :
      (code : StatusCode) (message : Text) (t : TerminalSession)
      → Sound t
      → Sound (close_terminal outside code message t)
  unfolding close_terminal
  close-Sound code message t h =
      if-cases Sound t.close_once t _ (λ e. h)
        (λ e.
          shut-Sound code message t t.live.attachment refl
            (h.0.3 ∙ ap (λ b. if b then all_resources else []) (sym h.0.1 ∙ e)))

  fire-Sound : (t : TerminalSession) → Sound t → Sound (fire t)
  fire-Sound t h =
      if-cases Sound t.live.idle_timer (record t { fired = t.fired + 1 }) t (λ e. h) (λ e. h)

  expire_fired-Sound :
      (n : ℕ) (t : TerminalSession) → Sound t → Sound (expire_fired (expire outside) n t)
  unfolding expire
  expire_fired-Sound zero t h = h
  expire_fired-Sound (suc n) t h =
      close-Sound going_away (codes "terminal session expired") (record t { fired = n }) h

  end_stream-Sound : (e : Cause) (t : TerminalSession) → Sound t → Sound (end_stream outside e t)
  unfolding end_stream
  end_stream-Sound e t h =
      if-cases Sound (ends_quietly e) t _ (λ q. h) (λ q. close-Sound internal_error unexpected t h)

  wait_for_exit-Sound :
      (e : Option Cause) (t : TerminalSession) → Sound t → Sound (wait_for_exit outside e t)
  unfolding wait_for_exit
  wait_for_exit-Sound e t h =
      if-cases Sound (is_exit e) _ _ (λ q. close-Sound normal_closure (codes "terminal closed") t h)
        (λ q. close-Sound internal_error unexpected t h)

  resized-Sound :
      (conn : ℕ) (r : TerminalSession × Option Cause) → Sound r.0 → Sound (resized outside conn r).0
  resized-Sound conn (t, none) h = h
  resized-Sound conn (t, some e) h = cleared-Sound conn t h

  after_round-Sound :
      (conn : ℕ) (r : TerminalSession × Option Cause)
      → Sound r.0
      → Sound (after_round outside conn r)
  after_round-Sound conn (t, none) h = h
  after_round-Sound conn (t, some e) h = cleared-Sound conn t h

  asks-Sound : (o : Option SshCall) (t : TerminalSession) → Sound t → Sound (asks outside o t).0
  unfolding ask
  asks-Sound none t h = h
  asks-Sound (some c) t h = h

  first_size-Sound :
      (conn cols rows : ℕ) (t : TerminalSession) (o : Answer)
      → Sound t
      → Sound (first_size outside conn cols rows t o).0
  first_size-Sound conn cols rows t attached h =
      if-cases {A = TerminalSession × Begun} (λ r. Sound r.0) (ltb 0 rows && ltb 0 cols) _ _
        (λ e.
          resized-Sound conn (ask outside (window_change rows cols) t)
            (asks-Sound (some (window_change rows cols)) t h))
        (λ e. h)
  first_size-Sound conn cols rows t (refused e) h = h
  first_size-Sound conn cols rows t replaying h = h

  receive-Sound : (r : Received) (t : TerminalSession) → Sound t → Sound (receive outside r t).0
  unfolding receive
  receive-Sound (received message_binary msg) t h = h
  receive-Sound (received message_text none) t h = h
  receive-Sound (received message_text (some msg)) t h =
      rw (obey-asks outside msg t) (asks-Sound (request_of msg) t h)

  pub happen-Sound : (e : Event) (t : TerminalSession) → Sound t → Sound (happen outside e t)
  unfolding happen begin_attach
  happen-Sound (attaches rounds conn cols rows recovered clears) t h =
      first_size-Sound conn cols rows _ _
        (live-Sound t _ h (attach-Kept outside rounds _ conn clears t.live h.1))
  happen-Sound (reads conn r) t h =
      after_round-Sound conn (receive outside r t) (receive-Sound r t h)
  happen-Sound (hangs_up conn) t h = cleared-Sound conn t h
  happen-Sound (prints chunk) t h = live-Sound t _ h (publish-Kept outside chunk t.live h.1)
  happen-Sound (stream_ends e) t h = end_stream-Sound e t h
  happen-Sound (exits e) t h = wait_for_exit-Sound e t h
  happen-Sound (writes_out turns) t h =
      live-Sound t _ h (at-Kept (write_loop turns) t.live t.live.attachment refl h.1)
  happen-Sound fires t h = fire-Sound t h
  happen-Sound expires t h = expire_fired-Sound t.fired t h

  pub happen_all-Sound :
      (es : List Event) (t : TerminalSession) → Sound t → Sound (happen_all outside es t)
  unfolding happen_all
  happen_all-Sound [] t h = h
  happen_all-Sound (e ∷ es) t h = happen_all-Sound es (happen outside e t) (happen-Sound e t h)
