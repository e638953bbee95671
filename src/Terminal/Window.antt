-- ===== src/Terminal/Window.antt =====
-- The cells of the ring, as the window of the latest frames that they stand for.
use mini_control_public.Prelude.{
  ℕ, zero, suc, ◌+◌, ◌-◌, ◌%◌, ◌≤◌, ◌<◌, ◌≡◌, refl, sym, ap, ◌∙◌, true, false, List, [], ◌∷◌, ◌++◌,
  some, length, drop, ltb, map, if◌then◌else◌, arith, length-append,
}
use mathlib.Core.List.{append_assoc, map-append}
use mini_control_public.Terminal.{
  HistoryFrame, message_binary, terminal_history_frames, uint64_range, Ring, ring_new, set_value,
  next, History, ring_of, append_frame, publish_binary,
}

-- A window of at most 256 frames takes one more.
unfoldable pub slide : List HistoryFrame → HistoryFrame → List HistoryFrame
slide w f = if ltb (length w) terminal_history_frames then w ++ f ∷ [] else drop 1 w ++ f ∷ []

abbrev pub cells : List HistoryFrame → Ring
cells w = ring_new (terminal_history_frames - length w) ++ map some w

put_room :
    (k : ℕ) (w : List HistoryFrame) (f : HistoryFrame)
    → next (set_value f (ring_new (suc k) ++ map some w)) ≡ ring_new k ++ map some (w ++ f ∷ [])
unfolding ring_new
put_room k w f =
    append_assoc (ring_new k) (map some w) (some f ∷ [])
    ∙ ap (λ t. ring_new k ++ t) (sym (map-append some w (f ∷ [])))

put_full :
    (x : HistoryFrame) (w : List HistoryFrame) (f : HistoryFrame)
    → next (set_value f (map some (x ∷ w))) ≡ map some (w ++ f ∷ [])
put_full x w f = sym (map-append some w (f ∷ []))

-- The history stands for the window `w` after `n` chunks.
pub record Shows (n : ℕ) (w : List HistoryFrame) (h : History) : Type 0 where
  pub running : h.closed ≡ false
  pub counted : h.next_seq ≡ n
  pub measured : h.history_len ≡ length w
  pub fits : length w ≤ terminal_history_frames
  pub ring : ring_of h.history ≡ cells w

put_cells :
    (w : List HistoryFrame) (f : HistoryFrame)
    → length w ≤ terminal_history_frames
    → next (set_value f (cells w)) ≡ cells (slide w f)
unfolding slide
put_cells w f fits = go (terminal_history_frames - length w) w refl fits
  where
    go :
        (k : ℕ) (w : List HistoryFrame)
        → terminal_history_frames - length w ≡ k
        → length w ≤ terminal_history_frames
        → next (set_value f (ring_new k ++ map some w)) ≡ cells (slide w f)
    go zero [] e l = absurd (omega (arith, e))
    go zero (x ∷ w) e l =
        let full : ltb (length (x ∷ w)) terminal_history_frames ≡ false = ground (arith, e, l) in
        let n : 0 ≡ terminal_history_frames - length (w ++ f ∷ []) =
          omega (arith, e, l, length-append w (f ∷ [])) in
        rw full
          (unfold ring_new in put_full x w f ∙ ap (λ j. ring_new j ++ map some (w ++ f ∷ [])) n)
    go (suc k) w e l =
        let room : ltb (length w) terminal_history_frames ≡ true = ground (arith, e, l) in
        let n : k ≡ terminal_history_frames - length (w ++ f ∷ []) =
          omega (arith, e, l, length-append w (f ∷ [])) in
        rw room (put_room k w f ∙ ap (λ j. ring_new j ++ map some (w ++ f ∷ [])) n)

length-slide :
    (w : List HistoryFrame) (f : HistoryFrame)
    → length w ≤ terminal_history_frames
    → length (slide w f)
      ≡ (if ltb (length w) terminal_history_frames then length w + 1 else length w)
unfolding slide
length-slide [] f fits = refl
length-slide (x ∷ w) f fits =
    ground (arith, length-append w (f ∷ []), length-append (x ∷ w) (f ∷ []))

-- A chunk that is published moves the window on by one frame, with the next number.
pub Shows-publish :
    (n : ℕ) (w : List HistoryFrame) (p : List ℕ) (h : History)
    → n + 1 < uint64_range
    → Shows n w h
    → Shows
        (n + 1)
        (slide w (record { seq = n + 1; message = message_binary; payload = p }))
        (publish_binary p h)
unfolding publish_binary append_frame
Shows-publish n w p h small s =
    let f : HistoryFrame = record { seq = n + 1; message = message_binary; payload = p } in
    let seq : (h.next_seq + 1) % uint64_range ≡ n + 1 = omega (arith, s.counted, small) in
    rw (s.running, seq)
      (record {
        running = refl;
        counted = refl;
        measured = ground (arith, s.measured, length-slide w f s.fits);
        fits = ground (arith, s.fits, length-slide w f s.fits);
        ring = ap (λ r. next (set_value f r)) s.ring ∙ put_cells w f s.fits;
      })
