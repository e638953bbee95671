-- ===== src/TerminalSessions/Later.antt =====
-- What an event that is no attachment leaves of a terminal session.
use mini_control_public.Prelude.{
  ℕ, zero, suc, ◌+◌, ◌≡◌, ◌∙◌, refl, Bool, true, false, ◌⊎◌, ◌≤◌, List, [], ◌∷◌, ◌++◌, Option, none,
  some, arith, inl, inr, if-cases, sym,
}
use mini_control_public.Text.{Text, codes}
use mini_control_public.Terminal.{message_binary, message_text, publish_binary}
use mini_control_public.Attach.{Attachment, Session}
use mini_control_public.TerminalSessions.{
  StatusCode, Cause, TerminalSession, Outside, SshCall, Received, shut_terminal, close_terminal,
  end_stream, wait_for_exit, expire, ends_quietly, is_exit, publish, deliver, clear_attachment,
  release_attachment, at_attachment, write_loop, ask, receive, cleared, going_away, internal_error,
  normal_closure, unexpected, received,
}
use mini_control_public.TerminalSessions.Events.{
  Event, attaches, reads, hangs_up, prints, stream_ends, exits, writes_out, fires, expires,
  expire_fired, after_round, happen,
}
use mini_control_public.TerminalSessions.Kept.{Sound, at-Kept, clear-Kept, publish-Kept}
use mini_control_public.TerminalSessions.Input.{asks, obey-asks, request_of}

abbrev pub is_attach : Event → Bool
is_attach (attaches rounds conn cols rows recovered clears) = true
is_attach e = false

abbrev pub IsClosed : TerminalSession → Type 0
IsClosed t = t.live.history.closed ≡ true

-- As `clearAttachment` leaves it.
abbrev pub Waiting : TerminalSession → Type 0
Waiting t = (t.live.attachment ≡ none) × (t.live.idle_timer ≡ true)

-- How an event without a new attachment moves a session on.
abbrev pub Later : TerminalSession → TerminalSession → Type 0
Later t u =
    (IsClosed t → IsClosed u)
    × (IsClosed u ⊎ (t.fired ≤ u.fired))
    × (Waiting t → IsClosed u ⊎ Waiting u)

Later-refl : (t : TerminalSession) → Later t t
Later-refl t = (λ c. c, inr (omega arith), λ w. inr w)

closed-Later : (t u : TerminalSession) → IsClosed u → Later t u
closed-Later t u c = (λ _. c, inl c, λ _. inl c)

-- Nothing is attached, and the idle timer is as it was.
abbrev Unattached : Session → Session → Type 0
Unattached s u = (u.attachment ≡ none) × (u.idle_timer ≡ s.idle_timer)

live-Later :
    (t : TerminalSession) (s : Session)
    → s.history.closed ≡ t.live.history.closed
    → (t.live.attachment ≡ none → Unattached t.live s)
    → Later t (record t { live = s })
live-Later t s c w = (λ e. c ∙ e, inr (omega arith), λ h. let k = w h.0 in inr (k.0, k.1 ∙ h.1))

module _ (outside : Outside) where
  shut-IsClosed :
      (code : StatusCode) (message : Text) (t : TerminalSession) (o : Option Attachment)
      → IsClosed (shut_terminal outside code message t o)
  shut-IsClosed code message t none = refl
  shut-IsClosed code message t (some a) = refl

  close-IsClosed :
      (code : StatusCode) (message : Text) (t : TerminalSession)
      → Sound t
      → IsClosed (close_terminal outside code message t)
  unfolding close_terminal
  close-IsClosed code message t h =
      if-cases IsClosed t.close_once t _ (λ e. sym h.0.1 ∙ e)
        (λ e. shut-IsClosed code message t t.live.attachment)

  release-Unattached :
      (conn : ℕ) (s : Session) (o : Option Attachment)
      → s.attachment ≡ o
      → s.attachment ≡ none
      → Unattached s (release_attachment conn s o)
  release-Unattached conn s none e w = (w, refl)
  release-Unattached conn s (some a) e w = cc (w, e)

  cleared-Later : (conn : ℕ) (t : TerminalSession) → Sound t → Later t (cleared outside conn t)
  unfolding clear_attachment
  cleared-Later conn t h =
      live-Later t (clear_attachment conn t.live) (clear-Kept conn t.live h.1).0
        (release-Unattached conn t.live t.live.attachment refl)

  deliver-Unattached :
      (p : List ℕ) (s : Session) (o : Option Attachment)
      → s.attachment ≡ o
      → s.attachment ≡ none
      → Unattached s (deliver outside p s o)
  deliver-Unattached p s none e w = (w, refl)
  deliver-Unattached p s (some a) e w = cc (w, e)

  publish-Later :
      (p : List ℕ) (t : TerminalSession)
      → Sound t
      → Later t (record t { live = publish outside p t.live })
  unfolding publish
  publish-Later p t h =
      live-Later t (publish outside p t.live) (publish-Kept outside p t.live h.1).0 (λ w.
        if-cases (Unattached t.live) t.live.history.closed t.live _ (λ e. (w, refl))
          (λ e.
            deliver-Unattached p (record t.live { history = publish_binary p t.live.history })
              t.live.attachment refl w))

  at-Unattached :
      (f : Attachment → Attachment) (s : Session) (o : Option Attachment)
      → s.attachment ≡ o
      → s.attachment ≡ none
      → Unattached s (at_attachment f s o)
  at-Unattached f s none e w = (w, refl)
  at-Unattached f s (some a) e w = cc (w, e)

  round-Later :
      (conn : ℕ) (calls : List SshCall) (o : Option Cause) (t : TerminalSession)
      → Sound t
      → Later t (after_round outside conn (record t { calls = calls }, o))
  round-Later conn calls none t h = Later-refl t
  round-Later conn calls (some e) t h = cleared-Later conn (record t { calls = calls }) h

  asks-Later :
      (conn : ℕ) (o : Option SshCall) (t : TerminalSession)
      → Sound t
      → Later t (after_round outside conn (asks outside o t))
  unfolding ask
  asks-Later conn none t h = Later-refl t
  asks-Later conn (some c) t h = round-Later conn _ (outside.ssh (t.calls ++ c ∷ [])) t h

  receive-Later :
      (conn : ℕ) (r : Received) (t : TerminalSession)
      → Sound t
      → Later t (after_round outside conn (receive outside r t))
  unfolding receive
  receive-Later conn (received message_binary msg) t h = Later-refl t
  receive-Later conn (received message_text none) t h = cleared-Later conn t h
  receive-Later conn (received message_text (some msg)) t h =
      rw (obey-asks outside msg t) (asks-Later conn (request_of msg) t h)

  close-Later :
      (code : StatusCode) (message : Text) (t u : TerminalSession)
      → Sound u
      → Later t (close_terminal outside code message u)
  close-Later code message t u h =
      closed-Later t (close_terminal outside code message u) (close-IsClosed code message u h)

  pub expire_fired-IsClosed :
      (n : ℕ) (t : TerminalSession) → Sound t → IsClosed (expire_fired (expire outside) (suc n) t)
  unfolding expire
  expire_fired-IsClosed n t h =
      close-IsClosed going_away (codes "terminal session expired") (record t { fired = n }) h

  expire_fired-Later :
      (n : ℕ) (t : TerminalSession) → Sound t → Later t (expire_fired (expire outside) n t)
  expire_fired-Later zero t h = Later-refl t
  expire_fired-Later (suc n) t h =
      closed-Later t (expire_fired (expire outside) (suc n) t) (expire_fired-IsClosed n t h)

  pub happen-Later :
      (e : Event) (t : TerminalSession)
      → is_attach e ≡ false
      → Sound t
      → Later t (happen outside e t)
  unfolding happen end_stream wait_for_exit
  happen-Later (attaches rounds conn cols rows recovered clears) t n h = cc n
  happen-Later (reads conn r) t n h = receive-Later conn r t h
  happen-Later (hangs_up conn) t n h = cleared-Later conn t h
  happen-Later (prints chunk) t n h = publish-Later chunk t h
  happen-Later (stream_ends e) t n h =
      if-cases (Later t) (ends_quietly e) t _ (λ q. Later-refl t)
        (λ q. close-Later internal_error unexpected t t h)
  happen-Later (exits e) t n h =
      if-cases (Later t) (is_exit e) _ _
        (λ q. close-Later normal_closure (codes "terminal closed") t t h)
        (λ q. close-Later internal_error unexpected t t h)
  happen-Later (writes_out turns) t n h =
      live-Later t (at_attachment (write_loop turns) t.live t.live.attachment)
        (at-Kept (write_loop turns) t.live t.live.attachment refl h.1).0
        (at-Unattached (write_loop turns) t.live t.live.attachment refl)
  happen-Later fires t n h =
      if-cases (Later t) t.live.idle_timer (record t { fired = t.fired + 1 }) t
        (λ e. (λ c. c, inr (omega arith), λ w. inr w)) (λ e. Later-refl t)
  happen-Later expires t n h = expire_fired-Later t.fired t h
