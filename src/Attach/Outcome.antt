-- ===== src/Attach/Outcome.antt =====
-- What is left of a session by each answer of `Attach`.
use mini_control_public.Prelude.{
  ℕ, ◌≡◌, ◌≢◌, ◌∙◌, ap, if◌then◌else◌, refl, Bool, true, false, ◌&&◌, List, [], ◌∷◌, Option, none,
  some, arith, inl, inr, is_some, Option-cases,
}
use mini_control_public.Terminal.{
  message_text, HistoryFrame, History, snapshot_frames_after, publish_all,
}
use mini_control_public.Attach.{
  OutboundMessage, Attachment, AttachError, session_closed, attachment_closed, buffer_full, Session,
  Answer, attached, refused, replaying, Replay, send, send_now, send_frames, replay, replay_from,
  settle, attach, let_go, stop_idle_timer, new_attachment, if_sent-all, write_out, outbound_of,
  is_empty,
}

-- The session before and after; whether the reader of the attachment that gives way clears it.
abbrev pub Left : Bool → Session → Session × Answer → Type 0
Left reader_clears s (s', attached) =
    (s.history.closed ≡ false)
    × (is_some s'.attachment ≡ true)
    × (s'.idle_timer ≡ (reader_clears && is_some s.attachment))
Left reader_clears s (s', refused session_closed) = (s.history.closed ≡ true) × (s' ≡ s)
Left reader_clears s (s', refused e) =
    (s.history.closed ≡ false)
    × (s'.attachment ≡ none)
    × (s'.idle_timer ≡ (reader_clears && is_some s.attachment))
Left reader_clears s (s', replaying) =
    (s.history.closed ≡ false)
    × (s'.attachment ≡ none)
    × (s'.idle_timer ≡ (reader_clears && is_some s.attachment))

let_go-detached : (b : Bool) (s : Session) → (let_go b s).attachment ≡ none
let_go-detached b s = elim (Option-cases s.attachment) [
  | inl e ↦ rw e refl
  | inr (a, e) ↦ rw e refl
]

pub let_go-kept :
    (b : Bool) (s : Session)
    → ((let_go b (stop_idle_timer s)).history ≡ s.history)
      × ((let_go b (stop_idle_timer s)).idle_timer ≡ (b && is_some s.attachment))
let_go-kept true s = elim (Option-cases s.attachment) [
  | inl e ↦ rw e (refl, refl)
  | inr (a, e) ↦ rw e (refl, refl)
]
let_go-kept false s = elim (Option-cases s.attachment) [
  | inl e ↦ rw e (refl, refl)
  | inr (a, e) ↦ rw e (refl, refl)
]

pub if-all : (P : Replay → Type 0) (b : Bool) (x y : Replay) → P x → P y → P (if b then x else y)
if-all P true x y p q = p
if-all P false x y p q = q

module _ (chooses : Attachment → Bool) (drained : Attachment → ℕ) where
  -- An error of sending is not that the session is closed.
  send_now-error :
      (m : OutboundMessage) (a : Attachment)
      → (send_now chooses drained m a).1 ≢ some session_closed
  unfolding send_now
  send_now-error m a e = ground arith

  send_frames-error :
      (fs : List HistoryFrame) (a : Attachment)
      → (send_frames chooses drained fs a).1 ≢ some session_closed
  unfolding send_frames send
  send_frames-error [] a = λ e. ground arith
  send_frames-error (f ∷ fs) a =
      if_sent-all {A = Attachment × Option AttachError} (λ r. r.1 ≢ some session_closed)
        (send_frames chooses drained fs) (λ b x. (b, some x))
        (send chooses drained (outbound_of f) a) (λ b w. send_frames-error fs b)
        (λ b x failed e.
          send_now-error (outbound_of f) (write_out (drained a) a) (ap (λ r. r.1) failed ∙ e))

  replay-error :
      (rounds : List (List (List ℕ))) (seq : ℕ) (h : History) (a : Attachment)
      → (replay chooses drained rounds seq h a).answer ≢ refused session_closed
  unfolding replay
  replay-error [] seq h a = λ e. ground arith
  replay-error (ps ∷ rounds) seq h a =
      let snap = snapshot_frames_after seq h in
      let later = publish_all ps h in
      if-all (λ r. r.answer ≢ refused session_closed) (is_empty snap.0)
        (record { history = later; attachment = a; answer = attached }) _ (λ e. ground arith)
        (if_sent-all {A = Replay} (λ r. r.answer ≢ refused session_closed)
          (replay chooses drained rounds snap.1 later)
          (λ b x. record { history = later; attachment = b; answer = refused x })
          (send_frames chooses drained snap.0 a) (λ b w. replay-error rounds snap.1 later b)
          (λ b x failed e. send_frames-error snap.0 a (ap (λ r. r.1) failed ∙ (ground (arith, e)))))

  settle-Left :
      (b : Bool) (s t : Session) (r : Replay) (o : Answer)
      → s.history.closed ≡ false
      → t.attachment ≡ none
      → t.idle_timer ≡ (b && is_some s.attachment)
      → o ≢ refused session_closed
      → Left b s (settle chooses drained t r o)
  unfolding settle
  settle-Left b s t r attached up gone idle n = (up, refl, idle)
  settle-Left b s t r (refused session_closed) up gone idle n = absurd (n refl)
  settle-Left b s t r (refused attachment_closed) up gone idle n = (up, gone, idle)
  settle-Left b s t r (refused buffer_full) up gone idle n = (up, gone, idle)
  settle-Left b s t r replaying up gone idle n = (up, gone, idle)

  replay_from-Left :
      (b : Bool) (rounds : List (List (List ℕ))) (s t : Session) (a : Attachment)
      (o : Option AttachError)
      → s.history.closed ≡ false
      → t.attachment ≡ none
      → t.idle_timer ≡ (b && is_some s.attachment)
      → o ≢ some session_closed
      → Left b s (replay_from chooses drained rounds t (a, o))
  unfolding replay_from
  replay_from-Left b rounds s t a none up gone idle n =
      settle-Left b s t (replay chooses drained rounds 0 t.history a) _ up gone idle
        (replay-error rounds 0 t.history a)
  replay_from-Left b rounds s t a (some session_closed) up gone idle n = absurd (n refl)
  replay_from-Left b rounds s t a (some attachment_closed) up gone idle n = (up, gone, idle)
  replay_from-Left b rounds s t a (some buffer_full) up gone idle n = (up, gone, idle)

  pub attach-Left :
      (rounds : List (List (List ℕ))) (ready : List ℕ) (conn : ℕ) (reader_clears : Bool)
      (s : Session)
      → Left reader_clears s (attach chooses drained rounds ready conn reader_clears s)
  unfolding attach send
  attach-Left rounds ready conn reader_clears s = go s.history.closed refl
    where
      a : Attachment × Option AttachError
      a =
          send chooses drained (record { message = message_text; payload = ready })
            (new_attachment conn)

      go :
          (b : Bool)
          → s.history.closed ≡ b
          → Left reader_clears s (
              if b
              then (s, refused session_closed)
              else replay_from chooses drained rounds (let_go reader_clears (stop_idle_timer s)) a)
      go true closed = (closed, refl)
      go false up =
          replay_from-Left reader_clears rounds s (let_go reader_clears (stop_idle_timer s)) _ _ up
            (let_go-detached reader_clears (stop_idle_timer s)) (let_go-kept reader_clears s).1
            (send_now-error (record { message = message_text; payload = ready })
              (write_out (drained (new_attachment conn)) (new_attachment conn)))
