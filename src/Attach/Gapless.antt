-- ===== src/Attach/Gapless.antt =====
-- What a replay sends.
use mini_control_public.Prelude.{
  ℕ, zero, suc, ◌+◌, ◌-◌, ◌≤◌, ◌<◌, ◌≡◌, ◌∙◌, ap, sym, subst, if◌then◌else◌, refl, Bool, List, [],
  ◌∷◌, ◌++◌, Option, none, some, arith, length, take, drop, map, keep_if, ltb, length-append, All,
}
use mathlib.Core.List.{append_assoc, map-append, append-nil}
use mini_control_public.Terminal.{
  HistoryFrame, History, message_binary, new_history, snapshot_frames_after, publish_all,
  uint64_range, terminal_history_frames,
}
use mini_control_public.Terminal.Recent.{numbered, recent, snapshot-recent}
use mini_control_public.Attach.{
  if_sent, OutboundMessage, Attachment, AttachError, attached, refused, Replay, send, send_now,
  send_frames, replay, is_empty, if_sent-all, write_out, outbound_of,
}

-- All that was sent to the attachment.
abbrev pub contents : Attachment → List OutboundMessage
contents a = a.written ++ a.outbound

take-drop {ℓ} : {A : Type ℓ} (n : ℕ) (xs : List A) → take n xs ++ drop n xs ≡ xs
take-drop zero xs = refl
take-drop (suc n) [] = refl
take-drop (suc n) (x ∷ xs) = ap (λ t. x ∷ t) (take-drop n xs)

contents-write_out : (n : ℕ) (a : Attachment) → contents (write_out n a) ≡ contents a
contents-write_out n a =
    append_assoc a.written (take n a.outbound) (drop n a.outbound)
    ∙ ap (λ t. a.written ++ t) (take-drop n a.outbound)

numbered-append :
    (n : ℕ) (ps qs : List (List ℕ))
    → numbered n (ps ++ qs) ≡ numbered n ps ++ numbered (n + length ps) qs
numbered-append n [] qs = ap (λ k. numbered k qs) (omega arith)
numbered-append n (p ∷ ps) qs =
    let later : (n + 1) + length ps ≡ n + length (p ∷ ps) = omega arith in
    ap (λ t. record { seq = n + 1; message = message_binary; payload = p } ∷ t)
      (numbered-append (n + 1) ps qs ∙ ap (λ k. numbered (n + 1) ps ++ numbered k qs) later)

keep_if-append :
    (p : HistoryFrame → Bool) (fs gs : List HistoryFrame)
    → keep_if p (fs ++ gs) ≡ keep_if p fs ++ keep_if p gs
keep_if-append p [] gs = refl
keep_if-append p (f ∷ fs) gs = ground (arith, keep_if-append p fs gs)

keep_if-after :
    (a n : ℕ) (ps : List (List ℕ))
    → a ≤ n
    → keep_if (λ f. ltb a f.seq) (numbered n ps) ≡ numbered n ps
keep_if-after a n [] l = refl
keep_if-after a n (p ∷ ps) l = ground (arith, keep_if-after a (n + 1) ps (omega (arith, l)), l)

keep_if-before :
    (a k n : ℕ) (ps : List (List ℕ))
    → n + length ps ≤ a
    → keep_if (λ f. ltb a f.seq) (drop k (numbered n ps)) ≡ []
keep_if-before a zero n [] l = refl
keep_if-before a (suc k) n [] l = refl
keep_if-before a zero n (p ∷ ps) l =
    ground (arith, keep_if-before a zero (n + 1) ps (omega (arith, l)), l)
keep_if-before a (suc k) n (p ∷ ps) l = keep_if-before a k (n + 1) ps (omega (arith, l))

drop-append {ℓ} :
    {A : Type ℓ} (k : ℕ) (xs ys : List A) → k ≤ length xs → drop k (xs ++ ys) ≡ drop k xs ++ ys
drop-append zero xs ys l = refl
drop-append (suc k) [] ys l = absurd (omega (arith, l))
drop-append (suc k) (x ∷ xs) ys l = drop-append k xs ys (omega (arith, l))

length-numbered : (n : ℕ) (ps : List (List ℕ)) → length (numbered n ps) ≡ length ps
length-numbered n [] = refl
length-numbered n (p ∷ ps) = ap suc (length-numbered (n + 1) ps)

-- What was not replayed yet, if the ring has not lost any of it.
pub snapshot-pending :
    (ps qs : List (List ℕ))
    → length qs ≤ terminal_history_frames
    → length (ps ++ qs) < uint64_range
    → snapshot_frames_after (length ps) (publish_all (ps ++ qs) new_history)
      ≡ (numbered (length ps) qs, length (ps ++ qs))
snapshot-pending ps qs fits small =
    snapshot-recent (ps ++ qs) (length ps) small ∙ ap (λ t. (t, length (ps ++ qs))) kept
  where
    k : ℕ
    k = length (numbered 0 (ps ++ qs)) - terminal_history_frames

    low : k ≤ length (numbered 0 ps)
    low =
        omega (arith, length-numbered 0 (ps ++ qs), length-numbered 0 ps, length-append ps qs, fits)

    kept :
        keep_if (λ f. ltb (length ps) f.seq) (recent (numbered 0 (ps ++ qs)))
        ≡ numbered (length ps) qs
    kept =
        ap (λ t. keep_if (λ f. ltb (length ps) f.seq) (drop k t))
          (numbered-append 0 ps qs ∙ ap (λ j. numbered 0 ps ++ numbered j qs) (omega arith))
        ∙ ap (keep_if (λ f. ltb (length ps) f.seq))
            (drop-append k (numbered 0 ps) (numbered (length ps) qs) low)
        ∙ keep_if-append (λ f. ltb (length ps) f.seq) (drop k (numbered 0 ps))
            (numbered (length ps) qs)
        ∙ ap (λ t. t ++ keep_if (λ f. ltb (length ps) f.seq) (numbered (length ps) qs))
            (keep_if-before (length ps) k 0 ps (omega arith))
        ∙ keep_if-after (length ps) (length ps) qs (omega arith)

pub publish_all-append :
    (ps qs : List (List ℕ)) (h : History)
    → publish_all qs (publish_all ps h) ≡ publish_all (ps ++ qs) h
unfolding publish_all
publish_all-append [] qs h = refl
publish_all-append (p ∷ ps) qs h = publish_all-append ps qs _

abbrev pub concat {ℓ} : {A : Type ℓ} → List (List A) → List A
concat [] = []
concat (xs ∷ xss) = xs ++ concat xss

module _ (chooses : Attachment → Bool) (drained : Attachment → ℕ) where
  contents-send_now :
      (m : OutboundMessage) (a : Attachment)
      → (send_now chooses drained m a).1 ≡ none
      → contents (send_now chooses drained m a).0 ≡ contents a ++ m ∷ []
  unfolding send_now
  contents-send_now m a e = ground (arith, append_assoc a.written a.outbound (m ∷ []))

  contents-send :
      (m : OutboundMessage) (a : Attachment)
      → (send chooses drained m a).1 ≡ none
      → contents (send chooses drained m a).0 ≡ contents a ++ m ∷ []
  unfolding send
  contents-send m a e =
      contents-send_now m (write_out (drained a) a) e
      ∙ ap (λ t. t ++ m ∷ []) (contents-write_out (drained a) a)

  contents-send_frames :
      (fs : List HistoryFrame) (a : Attachment)
      → (send_frames chooses drained fs a).1 ≡ none
      → contents (send_frames chooses drained fs a).0 ≡ contents a ++ map outbound_of fs
  unfolding send_frames
  contents-send_frames [] a = λ e. sym (append-nil (contents a))
  contents-send_frames (f ∷ fs) a =
      if_sent-all {A = Attachment × Option AttachError}
        (λ r. r.1 ≡ none → contents r.0 ≡ contents a ++ map outbound_of (f ∷ fs))
        (send_frames chooses drained fs) (λ b x. (b, some x))
        (send chooses drained (outbound_of f) a)
        (λ b sent e.
          contents-send_frames fs b e
          ∙ ap (λ t. t ++ map outbound_of fs)
              (ap (λ r. contents r.0) (sym sent)
                ∙ contents-send (outbound_of f) a (ap (λ r. r.1) sent))
          ∙ append_assoc (contents a) (outbound_of f ∷ []) (map outbound_of fs))
        (λ b x failed e. absurd (ground arith))

-- The chunks that were sent, of those that were pending and those of the rounds, and the chunks
-- that the history has at the end.
abbrev pub Gapless :
    List (List ℕ) → List (List ℕ) → List (List (List ℕ)) → Attachment → Replay → Type 0
Gapless ps qs rounds a r =
    (k : ℕ) × (contents r.attachment
      ≡ contents a ++ map outbound_of (numbered (length ps) (qs ++ concat (take k rounds))))
    × (r.history ≡ publish_all ((ps ++ qs) ++ concat (take (suc k) rounds)) new_history)

module _ (chooses : Attachment → Bool) (drained : Attachment → ℕ) where
  Gapless-next :
      (ps qs rs : List (List ℕ)) (rounds : List (List (List ℕ))) (a b : Attachment) (r : Replay)
      → contents b ≡ contents a ++ map outbound_of (numbered (length ps) qs)
      → Gapless (ps ++ qs) rs rounds b r
      → Gapless ps qs (rs ∷ rounds) a r
  Gapless-next ps qs rs rounds a b r sent (k, all, kept) = (
    suc k,
    all
        ∙ ap
            (λ t.
              t ++ map outbound_of (numbered (length (ps ++ qs)) (rs ++ concat (take k rounds))))
            sent
        ∙ append_assoc (contents a) (map outbound_of (numbered (length ps) qs)) _
        ∙ ap (λ t. contents a ++ t)
            (sym (map-append outbound_of (numbered (length ps) qs) _)
              ∙ ap (map outbound_of) (
                  ap (λ n. numbered (length ps) qs ++ numbered n (rs ++ concat (take k rounds)))
                    (length-append ps qs)
                  ∙ sym (numbered-append (length ps) qs (rs ++ concat (take k rounds))))),
    kept ∙ ap (λ t. publish_all t new_history) (append_assoc (ps ++ qs) rs _),
  )

  -- One round, where `seq` and `h` are those of the snapshot.
  Gapless-round :
      (ps qs rs : List (List ℕ)) (rounds : List (List (List ℕ))) (a : Attachment)
      → ((b : Attachment)
          → (replay chooses drained rounds
              (length (ps ++ qs))
              (publish_all rs (publish_all (ps ++ qs) new_history))
              b).answer
            ≡ attached
          → Gapless (ps ++ qs) rs rounds b (
              replay chooses drained rounds
                (length (ps ++ qs))
                (publish_all rs (publish_all (ps ++ qs) new_history))
                b))
      → (let later = publish_all rs (publish_all (ps ++ qs) new_history) in
          let r : Replay =
            if is_empty (numbered (length ps) qs)
            then record { history = later; attachment = a; answer = attached }
            else if_sent
                (replay chooses drained rounds (length (ps ++ qs)) later)
                (λ b x. record { history = later; attachment = b; answer = refused x })
                (send_frames chooses drained (numbered (length ps) qs) a) in
          r.answer ≡ attached → Gapless ps qs (rs ∷ rounds) a r)
  Gapless-round ps [] rs rounds a again = λ e. (
    0,
    sym (append-nil (contents a)),
    publish_all-append (ps ++ []) rs new_history
        ∙ ap (λ t. publish_all ((ps ++ []) ++ t) new_history) (sym (append-nil rs)),
  )
  Gapless-round ps (q ∷ qs) rs rounds a again =
      let later = publish_all rs (publish_all (ps ++ q ∷ qs) new_history) in
      if_sent-all {A = Replay} (λ r. r.answer ≡ attached → Gapless ps (q ∷ qs) (rs ∷ rounds) a r)
        (replay chooses drained rounds (length (ps ++ q ∷ qs)) later)
        (λ b x. record { history = later; attachment = b; answer = refused x })
        (send_frames chooses drained (numbered (length ps) (q ∷ qs)) a)
        (λ b sent e.
          Gapless-next ps (q ∷ qs) rs rounds a b
            (replay chooses drained rounds (length (ps ++ q ∷ qs)) later b)
            (ap (λ r. contents r.0) (sym sent)
              ∙ contents-send_frames chooses drained (numbered (length ps) (q ∷ qs)) a
                  (ap (λ r. r.1) sent))
            (again b e))
        (λ b x failed e. absurd (ground (arith, e)))

  -- From where the chunks `ps` were replayed and at most 256 more are pending, with at most 256 that
  -- arrive in each round and fewer than 2^64 in all, a replay that ends with the attachment has
  -- sent, for some `k` and whatever the schedule, the pending chunks and those of the first `k`
  -- rounds, each once and in order; the chunks that arrive after its last snapshot are in the
  -- history, but were not sent.
  pub replay-Gapless :
      (rounds : List (List (List ℕ))) (ps qs : List (List ℕ)) (a : Attachment)
      → All (λ rs. length rs ≤ terminal_history_frames) rounds
      → length qs ≤ terminal_history_frames
      → length (ps ++ qs) + length (concat rounds) < uint64_range
      → (replay chooses drained rounds (length ps) (publish_all (ps ++ qs) new_history) a).answer
        ≡ attached
      → Gapless ps qs rounds a
          (replay chooses drained rounds (length ps) (publish_all (ps ++ qs) new_history) a)
  unfolding replay
  replay-Gapless [] ps qs a slow fits small = λ e. absurd (ground arith)
  replay-Gapless (rs ∷ rounds) ps qs a slow fits small =
      let again = replay-Gapless rounds (ps ++ qs) rs in
      let enough : length ((ps ++ qs) ++ rs) + length (concat rounds) < uint64_range =
        omega (arith, small, length-append (ps ++ qs) rs, length-append rs (concat rounds)) in
      let seen : length (ps ++ qs) < uint64_range = omega (arith, small) in
      rw (snapshot-pending ps qs fits seen) (
        Gapless-round ps qs rs rounds a (λ b.
          subst
            (λ h.
              (replay chooses drained rounds (length (ps ++ qs)) h b).answer ≡ attached
              → Gapless (ps ++ qs) rs rounds b
                  (replay chooses drained rounds (length (ps ++ qs)) h b))
            (sym (publish_all-append (ps ++ qs) rs new_history)) (again b slow.1 slow.0 enough)))
