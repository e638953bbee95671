-- ===== src/Examples/Terminals.antt =====
-- Output of a terminal.
use mini_control_public.Prelude.{
  some, true, ℕ, Bool, true, false, ◌≡◌, ◌≢◌, ◌++◌, refl, List, [], ◌∷◌, keep_if, ltb, arith,
}
use mini_control_public.Terminal.{ring_new, new_history, publish_all, snapshot_frames_after}
use mini_control_public.Attach.{Attachment, Session, new_attachment, replay, Replay, replaying}
use mini_control_public.Attach.Gapless.{Gapless, replay-Gapless}
use mini_control_public.Attach.Ends.{replay-ends}
use mini_control_public.Terminal.Recent.{numbered, recent, snapshot-recent}

abbrev greeting : List (List ℕ)
greeting = (104 ∷ []) ∷ (105 ∷ []) ∷ (10 ∷ []) ∷ []

snapshot-recent_example :
    snapshot_frames_after 1 (publish_all greeting new_history)
    ≡ (keep_if (λ f. ltb 1 f.seq) (recent (numbered 0 greeting)), 3)
snapshot-recent_example = snapshot-recent greeting 1 (omega arith)

abbrev left_open : Session
left_open = record {
  history = publish_all greeting new_history;
  attachment = some (new_attachment 4);
  idle_timer = false;
  detached = [];
}

abbrev never : Attachment → Bool
never a = false

abbrev at_once : Attachment → ℕ
at_once a = 128

abbrev late : List (List (List ℕ))
late = ((33 ∷ []) ∷ []) ∷ [] ∷ [] ∷ []

abbrev replayed : Replay
replayed = replay never at_once late 0 (publish_all ([] ++ greeting) new_history) (new_attachment 5)

replay-Gapless_example : Gapless [] greeting late (new_attachment 5) replayed
unfolding replay snapshot_frames_after publish_all ring_new
replay-Gapless_example =
    replay-Gapless never at_once late [] greeting (new_attachment 5)
      (omega arith, (omega arith, (omega arith, tt))) (omega arith) (omega arith) refl

replay-ends_example :
    (replay never at_once
      ((((33 ∷ []) ∷ []) ∷ []) ++ [] ∷ [] ∷ [])
      0
      (publish_all greeting new_history)
      (new_attachment 5)).answer
    ≢ replaying
replay-ends_example =
    replay-ends never at_once (((33 ∷ []) ∷ []) ∷ []) [] [] greeting 0 (new_attachment 5)
      (omega arith)
