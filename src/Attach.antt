-- ===== src/Attach.antt =====
-- server/internal/api/rest/terminal_sessions.go: the browser connections that attach to a terminal
-- session. `drained` says how many queued messages the connection's goroutine writes before the
-- next one is sent, and `chooses` whether `select` takes `<-a.done` where it may take either case.
-- `rounds` are the chunks of output that arrive after each of the snapshots that `Attach` takes.
pub mod Outcome
pub mod Gapless
pub mod Ends
pub mod Open
use mini_control_public.Prelude.{
  ℕ, ◌+◌, ◌≡◌, refl, Bool, true, false, ◌&&◌, ◌||◌, not, List, [], ◌∷◌, ◌++◌, Option, none, some,
  length, take, drop, ltb, if◌then◌else◌,
}
use mini_control_public.Terminal.{
  MessageType, message_text, HistoryFrame, History, snapshot_frames_after, publish_all,
}

abbrev pub terminal_attachment_queue_size : ℕ
terminal_attachment_queue_size = 128

pub record OutboundMessage : Type 0 where
  pub message : MessageType
  pub payload : List ℕ

-- `conn` tells attachments apart; `written` is what the goroutine has taken from the queue.
pub record Attachment : Type 0 where
  pub conn : ℕ
  pub outbound : List OutboundMessage
  pub written : List OutboundMessage
  pub done : Bool

-- As `newTerminalAttachment` makes it.
abbrev pub new_attachment : ℕ → Attachment
new_attachment conn = record { conn = conn; outbound = []; written = []; done = false }

pub data AttachError : Type 0 where
  session_closed attachment_closed buffer_full : AttachError

abbrev pub write_out : ℕ → Attachment → Attachment
write_out n a = record a { written = a.written ++ take n a.outbound; outbound = drop n a.outbound }

abbrev pub has_room : Attachment → Bool
has_room a = ltb (length a.outbound) terminal_attachment_queue_size

abbrev pub enqueue : OutboundMessage → Attachment → Attachment
enqueue m a = record a { outbound = a.outbound ++ m ∷ [] }

abbrev pub outbound_of : HistoryFrame → OutboundMessage
outbound_of f = record { message = f.message; payload = f.payload }

-- `close` of an attachment; the second and later calls do nothing.
abbrev pub close_attachment : Attachment → Attachment
close_attachment a = record a { done = true }

-- The fields of a session that `Attach` works on, and the attachments that it let go.
pub record Session : Type 0 where
  pub history : History
  pub attachment : Option Attachment
  pub idle_timer : Bool
  pub detached : List Attachment

-- `stopIdleTimer`.
abbrev pub stop_idle_timer : Session → Session
stop_idle_timer s = record s { idle_timer = false }

-- The current attachment is closed and removed. `reader_clears`: its reader's `clearAttachment` comes
-- first, behind `stopIdleTimer`, and sets the idle timer again.
abbrev pub let_go : Bool → Session → Session
let_go reader_clears s = elim s.attachment [
  | none ↦ s
  | some a ↦ record s {
    attachment = none;
    idle_timer = reader_clears || s.idle_timer;
    detached = close_attachment a ∷ s.detached;
  }
]

-- `replaying` is the answer of a loop that is still on its way.
pub data Answer : Type 0 where
  attached : Answer
  refused : AttachError → Answer
  replaying : Answer

pub record Replay : Type 0 where
  pub history : History
  pub attachment : Attachment
  pub answer : Answer

abbrev pub is_empty {ℓ} : {A : Type ℓ} → List A → Bool
is_empty [] = true
is_empty (x ∷ xs) = false

-- `if err := …; err != nil` around a call that sends.
abbrev pub if_sent {ℓ} :
    {A : Type ℓ}
    → (Attachment → A)
    → (Attachment → AttachError → A)
    → Attachment × Option AttachError
    → A
if_sent goes fails (a, none) = goes a
if_sent goes fails (a, some e) = fails a e

-- What holds of both ways on holds of the call.
pub if_sent-all {ℓ κ} :
    {A : Type ℓ} (P : A → Type κ) (goes : Attachment → A) (fails : Attachment → AttachError → A)
    (r : Attachment × Option AttachError)
    → ((b : Attachment) → r ≡ (b, none) → P (goes b))
    → ((b : Attachment) (e : AttachError) → r ≡ (b, some e) → P (fails b e))
    → P (if_sent goes fails r)
if_sent-all P goes fails (a, none) p q = p a refl
if_sent-all P goes fails (a, some e) p q = q a e refl

module _ (chooses : Attachment → Bool) (drained : Attachment → ℕ) where
  -- The `select` of `send`.
  unfoldable pub send_now : OutboundMessage → Attachment → Attachment × Option AttachError
  send_now m a =
      if a.done && (chooses a || not (has_room a))
      then (a, some attachment_closed)
      else if has_room a
      then (enqueue m a, none)
      else (a, some buffer_full)

  unfoldable pub send : OutboundMessage → Attachment → Attachment × Option AttachError
  unfolding send_now
  send m a = send_now m (write_out (drained a) a)

  -- The inner loop of the replay, up to the first error.
  unfoldable pub send_frames : List HistoryFrame → Attachment → Attachment × Option AttachError
  unfolding send
  send_frames [] a = (a, none)
  send_frames (f ∷ fs) a = if_sent (send_frames fs) (λ b e. (b, some e)) (send (outbound_of f) a)

  -- The loop of `Attach`, from a snapshot on. Chunks that arrive after the empty snapshot come
  -- before `setAttachment`.
  unfoldable pub replay : List (List (List ℕ)) → ℕ → History → Attachment → Replay
  unfolding send_frames
  replay [] seq h a = record { history = h; attachment = a; answer = replaying }
  replay (ps ∷ rounds) seq h a =
      let snap = snapshot_frames_after seq h in
      let again =
        if_sent (replay rounds snap.1 (publish_all ps h))
          (λ b e. record { history = publish_all ps h; attachment = b; answer = refused e })
          (send_frames snap.0 a) in
      if is_empty snap.0
      then record { history = publish_all ps h; attachment = a; answer = attached }
      else again

  -- `setAttachment`, or the close of the new attachment.
  unfoldable pub settle : Session → Replay → Answer → Session × Answer
  settle s r attached = (record s { history = r.history; attachment = some r.attachment }, attached)
  settle s r (refused e) = (
    record s { history = r.history; detached = close_attachment r.attachment ∷ s.detached },
    refused e,
  )
  settle s r replaying = (record s { history = r.history }, replaying)

  -- What follows the message `ready`.
  unfoldable pub replay_from :
      List (List (List ℕ)) → Session → Attachment × Option AttachError → Session × Answer
  unfolding settle replay
  replay_from rounds s (a, none) = let r = replay rounds 0 s.history a in settle s r r.answer
  replay_from rounds s (a, some e) =
      (record s { detached = close_attachment a ∷ s.detached }, refused e)

  -- `Attach` up to the release of its lock, where nothing closes the session meanwhile. `ready` is
  -- the JSON of the first message.
  unfoldable pub attach : List (List (List ℕ)) → List ℕ → ℕ → Bool → Session → Session × Answer
  unfolding replay_from
  attach rounds ready conn reader_clears s =
      if s.history.closed
      then (s, refused session_closed)
      else replay_from rounds (let_go reader_clears (stop_idle_timer s))
          (send (record { message = message_text; payload = ready }) (new_attachment conn))
