-- ===== src/TerminalSessions/Kept.antt =====
-- A session that is sound, and what the changes of its guarded fields keep.
use mini_control_public.Prelude.{
  ℕ, ◌≡◌, ◌∙◌, refl, Bool, true, false, List, [], ◌∷◌, Option, none, some, if◌then◌else◌, ◌==◌,
  if-cases, sym, subst,
}
use mini_control_public.Terminal.{message_binary, publish_binary, History}
use mini_control_public.Attach.{
  Attachment, session_closed, attachment_closed, buffer_full, Session, Answer, attached, refused,
  replaying, attach, if_sent-all, close_attachment,
}
use mini_control_public.Attach.Outcome.{Left, attach-Left}
use mini_control_public.Attach.Open.{attach-closed, publish_binary-closed}
use mini_control_public.TerminalSessions.{
  TerminalSession, Outside, all_resources, publish, deliver, send_to, clear_attachment,
  release_attachment, at_attachment, schedule_idle_timeout,
}

-- A session that is open holds everything; one that is closed is not listed, has given everything up once, and has neither an attachment nor an
-- idle timer.
abbrev pub QuietAs : Bool → Session → Type 0
QuietAs false s = Unit
QuietAs true s = (s.attachment ≡ none) × (s.idle_timer ≡ false)

abbrev pub HeldAs : Bool → TerminalSession → Type 0
HeldAs b t =
    (t.cancelled ≡ b)
    × (t.close_once ≡ b)
    × (b ≡ true → t.listed ≡ false)
    × (t.released ≡ (if b then all_resources else []))

abbrev pub Quiet : Session → Type 0
Quiet s = QuietAs s.history.closed s

abbrev pub Sound : TerminalSession → Type 0
Sound t = HeldAs t.live.history.closed t × Quiet t.live

-- A change of the guarded fields that neither opens nor closes the session.
abbrev pub Kept : Session → Session → Type 0
Kept s s' = (s'.history.closed ≡ s.history.closed) × Quiet s'

pub schedule-Kept : (s : Session) → s.attachment ≡ none → Quiet s → Kept s (schedule_idle_timeout s)
schedule-Kept s gone q =
    if-cases (Kept s) s.history.closed s (record s { idle_timer = true }) (λ e. (refl, q))
      (λ e. (refl, rw e tt))

-- Without its attachment a session is quiet, whatever the list of those let go.
dropped-Quiet :
    (b : Bool) (s : Session) (d : List Attachment)
    → QuietAs b s
    → QuietAs b (record s { attachment = none; detached = d })
dropped-Quiet false s d q = tt
dropped-Quiet true s d q = (refl, q.1)

release-Kept :
    (conn : ℕ) (s : Session) (o : Option Attachment)
    → Quiet s
    → Kept s (release_attachment conn s o)
release-Kept conn s none q = (refl, q)
release-Kept conn s (some a) q =
    if-cases (Kept s) (a.conn == conn) _ s
      (λ e.
        schedule-Kept (record s { attachment = none; detached = close_attachment a ∷ s.detached })
          refl (dropped-Quiet s.history.closed s _ q))
      (λ e. (refl, q))

replaced-Quiet :
    (b : Bool) (s : Session) (a c : Attachment)
    → s.attachment ≡ some a
    → QuietAs b s
    → QuietAs b (record s { attachment = some c })
replaced-Quiet false s a c e q = tt
replaced-Quiet true s a c e q = cc (q.0, e)

pub at-Kept :
    (f : Attachment → Attachment) (s : Session) (o : Option Attachment)
    → s.attachment ≡ o
    → Quiet s
    → Kept s (at_attachment f s o)
at-Kept f s none e q = (refl, q)
at-Kept f s (some a) e q = (refl, replaced-Quiet s.history.closed s a (f a) e q)

-- Only the attachment and the idle timer matter.
other-Quiet :
    (b : Bool) (s : Session) (h : History) → QuietAs b s → QuietAs b (record s { history = h })
other-Quiet false s h q = q
other-Quiet true s h q = q

Kept-trans : (s u v : Session) → Kept s u → Kept u v → Kept s v
Kept-trans s u v h k = (k.0 ∙ h.0, k.1)

pub clear-Kept : (conn : ℕ) (s : Session) → Quiet s → Kept s (clear_attachment conn s)
unfolding clear_attachment
clear-Kept conn s q = release-Kept conn s s.attachment q

Left-Kept :
    (b : Bool) (s : Session) (r : Session × Answer)
    → r.0.history.closed ≡ s.history.closed
    → Quiet s
    → Left b s r
    → Kept s r.0
Left-Kept b s (u, attached) c q l = (c, subst (λ b. QuietAs b u) (sym (c ∙ l.0)) tt)
Left-Kept b s (u, refused session_closed) c q l = (c, subst Quiet (sym l.1) q)
Left-Kept b s (u, refused attachment_closed) c q l =
    (c, subst (λ b. QuietAs b u) (sym (c ∙ l.0)) tt)
Left-Kept b s (u, refused buffer_full) c q l = (c, subst (λ b. QuietAs b u) (sym (c ∙ l.0)) tt)
Left-Kept b s (u, replaying) c q l = (c, subst (λ b. QuietAs b u) (sym (c ∙ l.0)) tt)

-- A session whose guarded fields change so stays sound.
pub live-Sound :
    (t : TerminalSession) (s : Session) → Sound t → Kept t.live s → Sound (record t { live = s })
live-Sound t s h k = (subst (λ b. HeldAs b t) (sym k.0) h.0, k.1)

module _ (outside : Outside) where
  deliver-Kept :
      (p : List ℕ) (s : Session) (o : Option Attachment)
      → s.attachment ≡ o
      → Quiet s
      → Kept s (deliver outside p s o)
  deliver-Kept p s none e q = (refl, q)
  deliver-Kept p s (some a) e q =
      let replaced : (b : Attachment) → Kept s (record s { attachment = some b }) =
        λ b. (refl, replaced-Quiet s.history.closed s a b e q) in
      if_sent-all {A = Session} (Kept s) _ _
        (send_to outside (record { message = message_binary; payload = p }) a)
        (λ b sent. replaced b)
        (λ b x failed.
          Kept-trans s (record s { attachment = some b }) _ (replaced b)
            (clear-Kept b.conn (record s { attachment = some b }) (replaced b).1))

  pub publish-Kept : (p : List ℕ) (s : Session) → Quiet s → Kept s (publish outside p s)
  unfolding publish
  publish-Kept p s q =
      let s' : Session = record s { history = publish_binary p s.history } in
      let same = publish_binary-closed p s.history in
      let quiet : Quiet s' =
        other-Quiet _ s (publish_binary p s.history) (subst (λ b. QuietAs b s) (sym same) q) in
      if-cases (Kept s) s.history.closed s _ (λ e. (refl, q))
        (λ e. Kept-trans s s' _ (same, quiet) (deliver-Kept p s' s.attachment refl quiet))

  pub attach-Kept :
      (rounds : List (List (List ℕ))) (ready : List ℕ) (conn : ℕ) (reader_clears : Bool)
      (s : Session)
      → Quiet s
      → Kept s (attach outside.chooses outside.drained rounds ready conn reader_clears s).0
  attach-Kept rounds ready conn reader_clears s q =
      Left-Kept reader_clears s
        (attach outside.chooses outside.drained rounds ready conn reader_clears s)
        (attach-closed outside.chooses outside.drained rounds ready conn reader_clears s) q
        (attach-Left outside.chooses outside.drained rounds ready conn reader_clears s)
