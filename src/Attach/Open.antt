-- ===== src/Attach/Open.antt =====
-- `Attach` neither opens nor closes a session.
use mini_control_public.Prelude.{
  ℕ, ◌≡◌, ◌∙◌, refl, ap, Bool, List, [], ◌∷◌, Option, none, some, inl, inr, Bool-cases, if-cases,
}
use mini_control_public.Terminal.{
  message_text, History, snapshot_frames_after, append_frame, publish_binary, publish_all,
}
use mini_control_public.Attach.{
  Attachment, AttachError, Session, Answer, attached, refused, replaying, Replay, send, send_frames,
  replay, replay_from, settle, attach, let_go, stop_idle_timer, new_attachment, if_sent-all,
  is_empty,
}
use mini_control_public.Attach.Outcome.{let_go-kept, if-all}

pub publish_binary-closed : (p : List ℕ) (h : History) → (publish_binary p h).closed ≡ h.closed
unfolding publish_binary append_frame
publish_binary-closed p h = elim (Bool-cases h.closed) [ inl e ↦ rw e refl | inr e ↦ rw e refl ]

publish_all-closed : (ps : List (List ℕ)) (h : History) → (publish_all ps h).closed ≡ h.closed
unfolding publish_all
publish_all-closed [] h = refl
publish_all-closed (p ∷ ps) h =
    publish_all-closed ps (publish_binary p h) ∙ publish_binary-closed p h

module _ (chooses : Attachment → Bool) (drained : Attachment → ℕ) where
  replay-closed :
      (rounds : List (List (List ℕ))) (seq : ℕ) (h : History) (a : Attachment)
      → (replay chooses drained rounds seq h a).history.closed ≡ h.closed
  unfolding replay
  replay-closed [] seq h a = refl
  replay-closed (ps ∷ rounds) seq h a =
      let snap = snapshot_frames_after seq h in
      let later = publish_all ps h in
      let kept = publish_all-closed ps h in
      if-all (λ r. r.history.closed ≡ h.closed) (is_empty snap.0)
        (record { history = later; attachment = a; answer = attached }) _ kept
        (if_sent-all {A = Replay} (λ r. r.history.closed ≡ h.closed)
          (replay chooses drained rounds snap.1 later)
          (λ b x. record { history = later; attachment = b; answer = refused x })
          (send_frames chooses drained snap.0 a) (λ b w. replay-closed rounds snap.1 later b ∙ kept)
          (λ b x failed. kept))

  settle-closed :
      (s : Session) (r : Replay) (o : Answer)
      → (settle chooses drained s r o).0.history.closed ≡ r.history.closed
  unfolding settle
  settle-closed s r attached = refl
  settle-closed s r (refused e) = refl
  settle-closed s r replaying = refl

  replay_from-closed :
      (rounds : List (List (List ℕ))) (s : Session) (p : Attachment × Option AttachError)
      → (replay_from chooses drained rounds s p).0.history.closed ≡ s.history.closed
  unfolding replay_from
  replay_from-closed rounds s (a, none) =
      let r = replay chooses drained rounds 0 s.history a in
      settle-closed s r r.answer ∙ replay-closed rounds 0 s.history a
  replay_from-closed rounds s (a, some e) = refl

  pub attach-closed :
      (rounds : List (List (List ℕ))) (ready : List ℕ) (conn : ℕ) (reader_clears : Bool)
      (s : Session)
      → (attach chooses drained rounds ready conn reader_clears s).0.history.closed
        ≡ s.history.closed
  unfolding attach
  attach-closed rounds ready conn reader_clears s =
      let first : Attachment × Option AttachError =
        send chooses drained (record { message = message_text; payload = ready })
          (new_attachment conn) in
      if-cases {A = Session × Answer} (λ r. r.0.history.closed ≡ s.history.closed) s.history.closed
        _ _ (λ e. refl)
        (λ e.
          replay_from-closed rounds (let_go reader_clears (stop_idle_timer s)) first
          ∙ ap (λ h. h.closed) (let_go-kept reader_clears s).0)
