-- ===== src/Terminal/Recent.antt =====
-- What `snapshotFramesAfter` answers after any output.
use mini_control_public.Prelude.{
  ℕ, zero, suc, ◌+◌, ◌-◌, ◌≤◌, ◌<◌, ◌≡◌, refl, sym, ap, subst, ◌∙◌, false, List, [], ◌∷◌, ◌++◌,
  some, length, drop, ltb, ◌==◌, map, arith, keep_if, length-append, Bool-cases, inl, inr,
}
use mathlib.Core.List.{append_assoc, append-nil}
use mini_control_public.Terminal.{
  HistoryFrame, message_binary, terminal_history_frames, uint64_range, Ring, ring_new, History,
  new_history, publish_binary, collect, snapshot_frames_after, publish_all,
}
use mini_control_public.Terminal.Window.{slide, cells, Shows, Shows-publish}

-- The frames of the chunks `ps`, numbered from `n + 1` on.
abbrev pub numbered : ℕ → List (List ℕ) → List HistoryFrame
numbered n [] = []
numbered n (p ∷ ps) =
    record { seq = n + 1; message = message_binary; payload = p } ∷ numbered (n + 1) ps

-- The last 256 of them.
abbrev pub recent : List HistoryFrame → List HistoryFrame
recent fs = drop (length fs - terminal_history_frames) fs

length-ring_new : (n : ℕ) → length (ring_new n) ≡ n
unfolding ring_new
length-ring_new zero = refl
length-ring_new (suc n) = ap suc (length-ring_new n)

length-map-some : (w : List HistoryFrame) → length (map some w) ≡ length w
length-map-some [] = refl
length-map-some (f ∷ w) = ap suc (length-map-some w)

drop-length_append : (r t : Ring) (n : ℕ) → length r ≡ n → drop n (r ++ t) ≡ t
drop-length_append [] t zero e = refl
drop-length_append [] t (suc n) e = absurd (omega (arith, e))
drop-length_append (c ∷ r) t zero e = absurd (omega (arith, e))
drop-length_append (c ∷ r) t (suc n) e = drop-length_append r t n (omega (arith, e))

collect-window :
    (a : ℕ) (w : List HistoryFrame) (t : Ring)
    → collect (length w) a (map some w ++ t) ≡ keep_if (λ f. ltb a f.seq) w
unfolding collect
collect-window a [] t = refl
collect-window a (f ∷ w) t = rw (collect-window a w t) refl

-- The ring's cells from the oldest frame on hold the window.
Shows-snapshot :
    (n : ℕ) (w : List HistoryFrame) (h : History) (a : ℕ)
    → Shows n w h
    → snapshot_frames_after a h ≡ (keep_if (λ f. ltb a f.seq) w, n)
unfolding snapshot_frames_after
Shows-snapshot n [] h a s = rw (s.measured, s.counted) refl
Shows-snapshot n (x ∷ w) h a s =
    let l : length (cells (x ∷ w)) - length (x ∷ w)
        ≡ length (ring_new (terminal_history_frames - length (x ∷ w))) =
      omega (
        arith,
        length-append (ring_new (terminal_history_frames - length (x ∷ w))) (map some (x ∷ w)),
        length-map-some (x ∷ w),
        s.fits,
      ) in
    let full : length (x ∷ w) == 0 ≡ false = ground arith in
    rw
      (
        s.measured,
        full,
        s.counted,
        s.ring,
        l,
        drop-length_append (ring_new (terminal_history_frames - length (x ∷ w))) (map some (x ∷ w))
            _ refl,
        collect-window a (x ∷ w),
      )
      refl

slides : List HistoryFrame → List HistoryFrame → List HistoryFrame
slides w [] = w
slides w (f ∷ fs) = slides (slide w f) fs

publish_all-Shows :
    (n : ℕ) (w : List HistoryFrame) (ps : List (List ℕ)) (h : History)
    → n + length ps < uint64_range
    → Shows n w h
    → Shows (n + length ps) (slides w (numbered n ps)) (publish_all ps h)
unfolding publish_all slides
publish_all-Shows n w [] h small s = subst (λ k. Shows k w h) (omega arith) s
publish_all-Shows n w (p ∷ ps) h small s =
    subst (λ k. Shows k (slides w (numbered n (p ∷ ps))) (publish_all (p ∷ ps) h)) (omega arith)
      (publish_all-Shows (n + 1) _ ps (publish_binary p h) (omega (arith, small))
        (Shows-publish n w p h (omega (arith, small)) s))

recent_at :
    (fs : List HistoryFrame) (k : ℕ)
    → length fs - terminal_history_frames ≡ k
    → recent fs ≡ drop k fs
recent_at fs k e = ap (λ j. drop j fs) e

-- A full window loses its first frame to the next one.
recent_full :
    (x f : HistoryFrame) (w fs : List HistoryFrame)
    → length (x ∷ w) ≡ terminal_history_frames
    → recent ((w ++ f ∷ []) ++ fs) ≡ recent ((x ∷ w) ++ f ∷ fs)
recent_full x f w fs full =
    let l = length-append w (f ∷ fs) in
    ap recent (append_assoc w (f ∷ []) fs)
    ∙ recent_at (w ++ f ∷ fs) (length fs) (omega (arith, full, l))
    ∙ sym (recent_at ((x ∷ w) ++ f ∷ fs) (suc (length fs)) (omega (arith, full, l)))

-- The window that starts with `w` ends with the last 256 frames.
slides-recent :
    (w fs : List HistoryFrame) → length w ≤ terminal_history_frames → slides w fs ≡ recent (w ++ fs)
unfolding slides slide
slides-recent w [] fits = sym (rw (append-nil w) (recent_at w 0 (omega (arith, fits))))
slides-recent [] (f ∷ fs) fits = slides-recent (f ∷ []) fs (omega arith)
slides-recent (x ∷ w) (f ∷ fs) fits =
    elim (Bool-cases (ltb (length (x ∷ w)) terminal_history_frames)) [
      | inl room ↦ rw room (
          slides-recent (x ∷ w ++ f ∷ []) fs (ground (arith, length-append w (f ∷ [])))
          ∙ ap (λ t. recent (x ∷ t)) (append_assoc w (f ∷ []) fs))
      | inr all ↦ rw all (
          slides-recent (w ++ f ∷ []) fs (ground (arith, fits, length-append w (f ∷ [])))
          ∙ recent_full x f w fs (ground (arith, all, fits)))
    ]

-- After any output of fewer than 2^64 chunks, a snapshot after the number `a` holds exactly those
-- of the last 256 chunks whose number, counted from 1, is above `a`, in their order, and comes
-- with the number of the last one.
pub snapshot-recent :
    (ps : List (List ℕ)) (a : ℕ)
    → length ps < uint64_range
    → snapshot_frames_after a (publish_all ps new_history)
      ≡ (keep_if (λ f. ltb a f.seq) (recent (numbered 0 ps)), length ps)
snapshot-recent ps a small =
    Shows-snapshot (length ps) (recent (numbered 0 ps)) (publish_all ps new_history) a (
      subst (λ w. Shows (length ps) w (publish_all ps new_history))
        (slides-recent [] (numbered 0 ps) (omega arith))
        (subst (λ n. Shows n (slides [] (numbered 0 ps)) (publish_all ps new_history)) (omega arith)
          (publish_all-Shows 0 [] ps new_history (omega (arith, small)) fresh)))
  where
    fresh : Shows 0 [] new_history
    fresh = record {
      running = refl;
      counted = refl;
      measured = refl;
      fits = omega arith;
      ring = sym (append-nil (ring_new terminal_history_frames));
    }
