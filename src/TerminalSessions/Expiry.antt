-- ===== src/TerminalSessions/Expiry.antt =====
-- A session that nobody attaches to again comes to its end.
use mini_control_public.Prelude.{
  ℕ, zero, suc, ◌+◌, ◌≡◌, ◌∙◌, refl, ap, true, false, ◌⊎◌, ◌≤◌, ◌<◌, dec_le, List, [], none, arith,
  inl, inr, if◌then◌else◌, if-cases, sym, subst,
}
use mini_control_public.Text.{Text}
use mini_control_public.TerminalSessions.{
  TerminalSession, Outside, all_resources, new_terminal, expire,
}
use mini_control_public.TerminalSessions.Events.{
  Event, fires, expires, expire_fired, happen, happen_all,
}
use mini_control_public.TerminalSessions.Kept.{QuietAs, Sound}
use mini_control_public.TerminalSessions.Sound.{happen-Sound, happen_all-Sound}
use mini_control_public.TerminalSessions.Later.{
  is_attach, IsClosed, Waiting, Later, happen-Later, expire_fired-IsClosed,
}

-- The session behind the first events of an endless schedule.
abbrev pub after : Outside → (ℕ → Event) → ℕ → TerminalSession → TerminalSession
after outside f zero t = t
after outside f (suc n) t = happen outside (f n) (after outside f n t)

-- All is given up, once, and the manager's map has the session no longer.
abbrev pub Gone : TerminalSession → Type 0
Gone t =
    (t.live.history.closed ≡ true)
    × (t.listed ≡ false)
    × (t.released ≡ all_resources)
    × (t.live.attachment ≡ none)

abbrev Fired : TerminalSession → Type 0
Fired t = IsClosed t ⊎ (0 < t.fired)

module _ (outside : Outside) (f : ℕ → Event) (t : TerminalSession) where
  persists :
      (P : TerminalSession → Type 0) (n : ℕ)
      → ((k : ℕ) → P (after outside f k t) → P (after outside f (suc k) t))
      → P (after outside f n t)
      → (k : ℕ) → n ≤ k
      → P (after outside f k t)
  persists P n step h zero le = subst (λ m. P (after outside f m t)) {y = 0} (omega (arith, le)) h
  persists P n step h (suc k) le = elim (dec_le n k) [
    | yes earlier ↦ step k (persists P n step h k earlier)
    | no now ↦ subst (λ m. P (after outside f m t)) {y = suc k} (omega (arith, le, now)) h
  ]

  after-Sound : Sound t → (n : ℕ) → Sound (after outside f n t)
  after-Sound h zero = h
  after-Sound h (suc n) = happen-Sound outside (f n) (after outside f n t) (after-Sound h n)

  -- `fires` sets off the function of a timer that is on, and `expires` ends the session then.
  fires-Fired : (u : TerminalSession) → IsClosed u ⊎ Waiting u → Fired (happen outside fires u)
  unfolding happen
  fires-Fired u h =
      if-cases Fired u.live.idle_timer (record u { fired = u.fired + 1 }) u (λ e. inr (omega arith))
        (λ e. elim h [ inl c ↦ inl c | inr w ↦ cc (w.1, e) ])

  expire-positive :
      (n : ℕ)
      → 0 < n
      → (u : TerminalSession) → Sound u
      → IsClosed (expire_fired (expire outside) n u)
  expire-positive zero n u h = absurd (omega (arith, n))
  expire-positive (suc m) n u h = expire_fired-IsClosed outside m u h

  expires-IsClosed : (u : TerminalSession) → Sound u → Fired u → IsClosed (happen outside expires u)
  unfolding happen
  expires-IsClosed u h (inl c) = (happen-Later outside expires u refl h).0 c
  expires-IsClosed u h (inr n) = expire-positive u.fired n u h

  module _ (nobody : (n : ℕ) → is_attach (f n) ≡ false) (sound : Sound t) where
    step-Later : (n : ℕ) → Later (after outside f n t) (after outside f (suc n) t)
    step-Later n = happen-Later outside (f n) (after outside f n t) (nobody n) (after-Sound sound n)

    still-Waiting :
        Waiting t → (n : ℕ) → IsClosed (after outside f n t) ⊎ Waiting (after outside f n t)
    still-Waiting w n =
        persists (λ u. IsClosed u ⊎ Waiting u) 0
          (λ k h. elim h [ inl c ↦ inl ((step-Later k).0 c) | inr v ↦ (step-Later k).2 v ]) (inr w)
          n (omega arith)

    step-Fired : (k : ℕ) → Fired (after outside f k t) → Fired (after outside f (suc k) t)
    step-Fired k (inl c) = inl ((step-Later k).0 c)
    step-Fired k (inr n) = elim (step-Later k).1 [
      | inl c ↦ inl c
      | inr le ↦ inr (omega (arith, n, le))
    ]

    closed-Gone : (k : ℕ) → IsClosed (after outside f k t) → Gone (after outside f k t)
    closed-Gone k c =
        let h = after-Sound sound k in
        (
          c,
          h.0.2 c,
          h.0.3 ∙ ap (λ b. if b then all_resources else []) c,
          (subst (λ b. QuietAs b (after outside f k t).live) c h.1).0,
        )

  -- The timer of a session that waits runs out at some moment, and its function is run later.
  ends-Gone :
      (nobody : (n : ℕ) → is_attach (f n) ≡ false)
      → Sound t
      → Waiting t
      → (out : ℕ) × (f out ≡ fires)
      → ((n : ℕ) → (m : ℕ) × (n ≤ m) × (f m ≡ expires))
      → (n : ℕ) × ((k : ℕ) → n ≤ k → Gone (after outside f k t))
  ends-Gone nobody sound waits out runs =
      let fired : Fired (after outside f (suc out.0) t) =
        subst (λ e. Fired (happen outside e (after outside f out.0 t))) (sym out.1)
          (fires-Fired (after outside f out.0 t) (still-Waiting nobody sound waits out.0)) in
      let run = runs (suc out.0) in
      let due : Fired (after outside f run.0 t) =
        persists Fired (suc out.0) (step-Fired nobody sound) fired run.0 run.1 in
      let shut : IsClosed (after outside f (suc run.0) t) =
        subst (λ e. IsClosed (happen outside e (after outside f run.0 t))) (sym run.2)
          (expires-IsClosed (after outside f run.0 t) (after-Sound sound run.0) due) in
      (
        suc run.0,
        λ k le.
            closed-Gone nobody sound k
              (persists IsClosed (suc run.0) (λ i. (step-Later nobody sound i).0) shut k le),
      )

module _ (outside : Outside) where
  new_terminal-Sound : (i m w v : Text) → Sound (new_terminal i m w v)
  new_terminal-Sound i m w v = ((refl, refl, λ b. cc, refl), tt)

  -- A session that lost its browser, whatever it went through before: if nobody attaches to it again,
  -- its timer runs out at some moment of an endless schedule, and the functions of timers that ran out
  -- get to run again and again, then from some moment on the session is closed, gone from the
  -- manager's map, and has given up all of its resources, each once.
  pub abandoned-Gone :
      (i m w v : Text) (es : List Event) (f : ℕ → Event)
      → ((n : ℕ) → is_attach (f n) ≡ false)
      → Waiting (happen_all outside es (new_terminal i m w v))
      → (out : ℕ) × (f out ≡ fires)
      → ((n : ℕ) → (k : ℕ) × (n ≤ k) × (f k ≡ expires))
      → (n : ℕ) × ((k : ℕ)
          → n ≤ k
          → Gone (after outside f k (happen_all outside es (new_terminal i m w v))))
  abandoned-Gone i m w v es f nobody waits out runs =
      ends-Gone outside f (happen_all outside es (new_terminal i m w v)) nobody
        (happen_all-Sound outside es (new_terminal i m w v) (new_terminal-Sound i m w v)) waits out
        runs
