-- ===== src/Attach/Ends.antt =====
-- When a replay ends.
use mini_control_public.Prelude.{
  ℕ, ◌+◌, ◌<◌, ◌≡◌, ◌≢◌, sym, subst, Bool, List, [], ◌∷◌, ◌++◌, arith, length, keep_if, ltb,
  length-append,
}
use mathlib.Core.List.{append-nil}
use mini_control_public.Terminal.{new_history, snapshot_frames_after, publish_all, uint64_range}
use mini_control_public.Terminal.Recent.{numbered, recent, snapshot-recent}
use mini_control_public.Attach.{
  Attachment, attached, refused, replaying, Replay, send_frames, replay, is_empty, if_sent-all,
}
use mini_control_public.Attach.Outcome.{if-all}
use mini_control_public.Attach.Gapless.{concat, publish_all-append, snapshot-pending}

-- Nothing is pending after the last number.
snapshot-nothing :
    (ps : List (List ℕ))
    → length ps < uint64_range
    → snapshot_frames_after (length ps) (publish_all ps new_history) ≡ ([], length ps)
snapshot-nothing ps small =
    subst (λ t. snapshot_frames_after (length ps) (publish_all t new_history) ≡ ([], length t))
      (append-nil ps)
      (snapshot-pending ps [] (omega arith) (omega (arith, small, length-append ps [])))

module _ (chooses : Attachment → Bool) (drained : Attachment → ℕ) where
  -- One round that does not end the loop is followed by the others.
  replay-again :
      (rs : List (List ℕ)) (rounds : List (List (List ℕ))) (ps : List (List ℕ)) (seq : ℕ)
      (a : Attachment)
      → length ps < uint64_range
      → ((b : Attachment)
          → (replay chooses drained rounds
              (length ps)
              (publish_all (ps ++ rs) new_history)
              b).answer
            ≢ replaying)
      → (replay chooses drained (rs ∷ rounds) seq (publish_all ps new_history) a).answer ≢ replaying
  unfolding replay
  replay-again rs rounds ps seq a small next =
      let fs = keep_if (λ f. ltb seq f.seq) (recent (numbered 0 ps)) in
      let later = publish_all rs (publish_all ps new_history) in
      rw (snapshot-recent ps seq small) (
        if-all (λ r. r.answer ≢ replaying) (is_empty fs)
          (record { history = later; attachment = a; answer = attached }) _ (λ e. ground arith)
          (if_sent-all {A = Replay} (λ r. r.answer ≢ replaying)
            (replay chooses drained rounds (length ps) later)
            (λ b x. record { history = later; attachment = b; answer = refused x })
            (send_frames chooses drained fs a)
            (λ b w.
              subst (λ h. (replay chooses drained rounds (length ps) h b).answer ≢ replaying)
                (sym (publish_all-append ps rs new_history)) (next b))
            (λ b x failed e. ground arith)))

  replay-nothing :
      (rs : List (List ℕ)) (rest : List (List (List ℕ))) (ps : List (List ℕ)) (a : Attachment)
      → length ps < uint64_range
      → (replay chooses drained (rs ∷ rest) (length ps) (publish_all ps new_history) a).answer
        ≢ replaying
  unfolding replay
  replay-nothing rs rest ps a small = rw (snapshot-nothing ps small) (λ e. ground arith)

  -- Whatever the schedule, a replay has ended, attached or refused, at the latest one round after a
  -- round in which no output arrives, if fewer than 2^64 chunks were published before that round.
  pub replay-ends :
      (rounds : List (List (List ℕ))) (rs : List (List ℕ)) (rest : List (List (List ℕ)))
      (ps : List (List ℕ)) (seq : ℕ) (a : Attachment)
      → length ps + length (concat rounds) < uint64_range
      → (replay chooses drained
          (rounds ++ [] ∷ rs ∷ rest)
          seq
          (publish_all ps new_history)
          a).answer
        ≢ replaying
  replay-ends [] rs rest ps seq a small =
      let few : length ps < uint64_range = omega (arith, small) in
      replay-again [] (rs ∷ rest) ps seq a few (λ b. last b)
    where
      last :
          (b : Attachment)
          → (replay chooses drained
              (rs ∷ rest)
              (length ps)
              (publish_all (ps ++ []) new_history)
              b).answer
            ≢ replaying
      last b =
          subst
            (λ t.
              (replay chooses drained (rs ∷ rest) (length ps) (publish_all t new_history) b).answer
              ≢ replaying)
            (sym (append-nil ps)) (replay-nothing rs rest ps b (omega (arith, small)))
  replay-ends (qs ∷ rounds) rs rest ps seq a small =
      replay-again qs (rounds ++ [] ∷ rs ∷ rest) ps seq a (omega (arith, small)) (λ b.
        replay-ends rounds rs rest (ps ++ qs) (length ps) b
          (omega (arith, small, length-append ps qs, length-append qs (concat rounds))))
