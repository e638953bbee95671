-- ===== src/Hostnames/Fresh.antt =====
-- The names that AssignHostname gives, and when it gives none.
use mini_control_public.Prelude.{
  ℕ, ◌+◌, ◌≤◌, ◌<◌, ◌≡◌, ◌≢◌, ◌↔◌, ◌∙◌, ap, sym, refl, false, List, [], ◌∷◌, ◌++◌, Option, none,
  some, find_if, any_of, All, All-map, arith, Option-cases, inl, inr, find_if-append,
}
use mini_control_public.Text.{Text, codes, text_eq, text_eq_refl}
use mini_control_public.Strings.{cut_prefix}
use mini_control_public.Decimal.{decimal, digits-decimal}
use mini_control_public.Model.{Worker}
use mini_control_public.Db.{Db, Result, ok, err, ◌>>=◌, >>=-ok}
use mini_control_public.Hostnames.{
  int_max, mac_number, number_or_zero, max_of, max_number, next_of, generate_worker_id, reserved,
  reserve, new_name, assign_to, assign_hostname,
}

mac_number-mac : (n : ℕ) → mac_number (codes "mac-" ++ decimal n) ≡ some n
unfolding mac_number cut_prefix
mac_number-mac n = digits-decimal n

-- The number of the name, if it has one, is at most `k`.
abbrev AtMost : ℕ → Option ℕ → Type 0
AtMost k none = Unit {0}
AtMost k (some j) = j ≤ k

AtMost-mono : (k l : ℕ) (o : Option ℕ) → k ≤ l → AtMost k o → AtMost l o
AtMost-mono k l none h a = tt
AtMost-mono k l (some j) h a = omega (arith, h, a)

number_or_zero-AtMost : (o : Option ℕ) (k : ℕ) → number_or_zero o ≡ ok k → AtMost k o
number_or_zero-AtMost none k e = tt
number_or_zero-AtMost (some j) k e = ground (arith, e)

max_step :
    (o : Option ℕ) (r s : Result ℕ) (k : ℕ)
    → number_or_zero o ≡ r
    → (r >>= λ j. s >>= λ rest. ok (max_of j rest)) ≡ ok k
    → AtMost k o × ((rest : ℕ) × (s ≡ ok rest) × (rest ≤ k))
max_step o (err c) s k p h = cc h
max_step o (ok j) (err c) k p h = cc h
max_step o (ok j) (ok rest) k p h = (
  AtMost-mono j k o (ground (arith, h)) (number_or_zero-AtMost o j p),
  (rest, refl, ground (arith, h)),
)

max_number-AtMost :
    (ws : List Worker) (k : ℕ)
    → max_number ws ≡ ok k
    → All (λ w. AtMost k (mac_number w.hostname)) ws
unfolding max_number
max_number-AtMost [] k e = tt
max_number-AtMost (w ∷ ws) k e =
    let (here, (rest, later, le)) = max_step (mac_number w.hostname) _ (max_number ws) k refl e in
    (
      here,
      All-map (λ v. AtMost-mono rest k (mac_number v.hostname) le) ws
          (max_number-AtMost ws rest later),
    )

-- The number of the name, if it has one, is below the largest INT.
abbrev pub Fits : Option ℕ → Type 0
Fits none = Unit {0}
Fits (some j) = j < int_max

Fits-AtMost : (o : Option ℕ) (k : ℕ) → k < int_max → AtMost k o → Fits o
Fits-AtMost none k h a = tt
Fits-AtMost (some j) k h a = omega (arith, h, a)

number_or_zero-Fits : (o : Option ℕ) → Fits o → (k : ℕ) × (number_or_zero o ≡ ok k) × (k < int_max)
number_or_zero-Fits none f = (0, refl, omega arith)
number_or_zero-Fits (some j) f = (j, ground (arith, f), f)

max_number-Fits :
    (ws : List Worker)
    → All (λ w. Fits (mac_number w.hostname)) ws
    → (k : ℕ) × (max_number ws ≡ ok k) × (k < int_max)
unfolding max_number
max_number-Fits [] f = (0, refl, omega arith)
max_number-Fits (w ∷ ws) f =
    let (k, e, small) = number_or_zero-Fits (mac_number w.hostname) f.0 in
    let (rest, later, fits) = max_number-Fits ws f.1 in
    (max_of k rest, rw (e, later) refl, ground (arith, small, fits))

-- A name with a number above all others is new.
above_lem : (k : ℕ) (h g : Text) → mac_number h ≡ some (k + 1) → AtMost k (mac_number g) → g ≢ h
above_lem k h g e a same = go (mac_number g) (ap mac_number same ∙ e) a
  where
    go : (o : Option ℕ) → o ≡ some (k + 1) → AtMost k o → ⊥
    go none p b = cc p
    go (some j) p b = ground (arith, p, b)

module _ (sha256 : Text → List ℕ) (now : ℕ) (hardware_uuid : Text) (db : Db) where
  abbrev pub row_of : Option Worker
  row_of = find_if (λ w. text_eq w.hardware_uuid hardware_uuid) db.workers

  -- What an answer for a Mac without a row comes from.
  assigned_new :
      (hostname : Text) (db' : Db)
      → row_of ≡ none
      → assign_hostname sha256 now hardware_uuid db ≡ ok (hostname, db')
      → (k : ℕ) × (max_number db.workers ≡ ok k)
        × (k < int_max)
        × (hostname ≡ codes "mac-" ++ decimal (k + 1))
        × (db' ≡ reserve (reserved sha256 now hostname hardware_uuid) db)
  unfolding assign_hostname assign_to
  assigned_new hostname db' unknown h =
      let (k, m, rest) =
        >>=-ok (max_number db.workers)
          (λ k. next_of k >>= λ n. new_name sha256 now hardware_uuid db n) (rw unknown at h) in
      let (n, next, made) = >>=-ok (next_of k) (new_name sha256 now hardware_uuid db) rest in
      let below : (k < int_max) × (n ≡ k + 1) = ground (arith, next) in
      let name : hostname ≡ codes "mac-" ++ decimal n = cc made in
      (k, m, below.0, name ∙ ap (λ (j : ℕ). codes "mac-" ++ decimal j) below.1, rw name (cc made))

  -- Where a host name is assigned to a Mac that has no row, no worker has that host name.
  pub assign-Fresh :
      (hostname : Text) (db' : Db)
      → row_of ≡ none
      → assign_hostname sha256 now hardware_uuid db ≡ ok (hostname, db')
      → All (λ w. w.hostname ≢ hostname) db.workers
  assign-Fresh hostname db' unknown h =
      let (k, m, _, name, _) = assigned_new hostname db' unknown h in
      All-map (λ w. above_lem k hostname w.hostname (ap mac_number name ∙ mac_number-mac (k + 1)))
        db.workers (max_number-AtMost db.workers k m)

  -- A Mac that has no row gets a host name exactly if no worker has a host name mac-k with a k of
  -- 2^31 - 1 or more.
  pub assign_iff :
      row_of ≡ none
      → ((p : Text × Db) × (assign_hostname sha256 now hardware_uuid db ≡ ok p))
        ↔ All (λ w. Fits (mac_number w.hostname)) db.workers
  unfolding assign_hostname assign_to
  assign_iff unknown = (
    λ (p, h).
        let (k, m, below, _, _) = assigned_new p.0 p.1 unknown h in
        All-map (λ w. Fits-AtMost (mac_number w.hostname) k below) db.workers
          (max_number-AtMost db.workers k m),
    λ fits.
        let (k, m, below) = max_number-Fits db.workers fits in
        let next : next_of k ≡ ok (k + 1) = ground (arith, below) in
        let p : Text × Db = (
          codes "mac-" ++ decimal (k + 1),
          reserve (reserved sha256 now (codes "mac-" ++ decimal (k + 1)) hardware_uuid) db,
        ) in
        (p, rw (unknown, m, next) refl),
  )

  -- Asked again, at any time, for a Mac whose ID no other worker has, the database gives the same
  -- host name and changes nothing.
  pub assign-assign :
      (later : ℕ) (hostname : Text) (db' : Db)
      → any_of (λ w. text_eq w.id (generate_worker_id sha256 hardware_uuid)) db.workers ≡ false
      → assign_hostname sha256 now hardware_uuid db ≡ ok (hostname, db')
      → assign_hostname sha256 later hardware_uuid db' ≡ ok (hostname, db')
  unfolding assign_hostname assign_to
  assign-assign later hostname db' new h = elim (Option-cases row_of) [
    | inl unknown ↦
        let (k, m, _, name, made) = assigned_new hostname db' unknown h in
        let n : Worker = reserved sha256 now hostname hardware_uuid in
        let rows : db'.workers ≡ db.workers ++ n ∷ [] = rw made (unfold reserve in rw new refl) in
        let found : find_if (λ w. text_eq w.hardware_uuid hardware_uuid) db'.workers ≡ some n =
          rw
            (
              rows,
              find_if-append (λ w. text_eq w.hardware_uuid hardware_uuid) db.workers (n ∷ []),
              unknown,
              text_eq_refl hardware_uuid,
            )
            refl in
        rw found refl
    | inr (w, known) ↦
        let same : db ≡ db' = cc (rw known at h) in
        let name : w.hostname ≡ hostname = cc (rw known at h) in
        rw (sym same) (rw (known, name) refl)
  ]
