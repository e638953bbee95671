-- ===== src/Workers/Registration.antt =====
-- Who may register, and what a registration leaves.
use mini_control_public.Prelude.{
  ℕ, ◌≡◌, ◌≢◌, ◌↔◌, ◌∙◌, ap, sym, subst, refl, Bool, true, false, ◌&&◌, not, List, [], ◌∷◌, Option,
  none, some, if◌then◌else◌, find_if, is_some, Bool-cases, inl, inr,
}
use mini_control_public.Text.{Text, text_eq}
use mini_control_public.Model.{Worker}
use mini_control_public.Db.{Db, not_found, Result, ok, err, or_not_found}
use mini_control_public.Http.{is_empty, tokens_match}
use mini_control_public.Http.Tokens.{tokens_match_iff}
use mini_control_public.WorkerTokens.{get_worker_by_hardware_uuid, hash_worker_token}
use mini_control_public.Workers.{
  live_hash, matches_live, if_enrolling, decide, should_issue_worker_token,
}

some_same : {a b : Text} → some a ≡ some b → a ≡ b
some_same e = cc e

module _ (sha256 : Text → List ℕ) where
  -- The token is one that the server gave the worker and has not revoked.
  abbrev pub Holds : Text → Worker → Type 0
  Holds token w =
      (w.auth_token_hash ≡ some (hash_worker_token sha256 token))
      × (w.auth_token_revoked_at ≡ none)
      × (hash_worker_token sha256 token ≢ [])

  abbrev pub Owner : Text → Text → Db → Type 0
  Owner hardware_uuid token db =
      (w : Worker) × (get_worker_by_hardware_uuid db hardware_uuid ≡ ok w) × Holds token w

  pub data Decision (enrollment_token hardware_uuid token : Text) (db : Db) (r : Result Bool)
      : Type 0 where
    keeps_token :
        Owner hardware_uuid token db
        → r ≡ ok false
        → Decision enrollment_token hardware_uuid token db r
    gets_token :
        ¬ Owner hardware_uuid token db
        → enrollment_token ≡ token
        → token ≢ []
        → r ≡ ok true
        → Decision enrollment_token hardware_uuid token db r
    is_refused :
        ¬ Owner hardware_uuid token db
        → ¬ ((enrollment_token ≡ token) × (token ≢ []))
        → r ≡ err not_found
        → Decision enrollment_token hardware_uuid token db r

  matches_hash_iff :
      (stored : Option Text) (revoked : Option ℕ) (hash : Text)
      → (matches_live
            (elim stored [
              | none ↦ none
              | some h ↦ if not (is_empty h) && not (is_some revoked) then some h else none
            ])
            hash
          ≡ true)
        ↔ ((stored ≡ some hash) × (revoked ≡ none) × (hash ≢ []))
  matches_hash_iff none revoked hash = (λ e. cc e, λ h. cc (h.0))
  matches_hash_iff (some []) revoked hash = (λ e. cc e, λ h. absurd (h.2 (sym (some_same (h.0)))))
  matches_hash_iff (some (c ∷ cs)) (some t) hash = (λ e. cc e, λ h. cc (h.1))
  matches_hash_iff (some (c ∷ cs)) none hash =
      let i = tokens_match_iff (c ∷ cs) hash in
      (
        λ e. let p = i.0 e in (ap (λ (t : Text). some t) p.0, refl, λ n. p.1 (p.0 ∙ n)),
        λ h. i.1 (some_same (h.0), λ n. cc n),
      )

  -- A decision that does not find an owner.
  enrolls-Decision :
      (enrollment_token hardware_uuid token : Text) (db : Db)
      → ¬ Owner hardware_uuid token db
      → Decision enrollment_token hardware_uuid token db (if_enrolling enrollment_token token)
  enrolls-Decision enrollment_token hardware_uuid token db other =
      let i = tokens_match_iff enrollment_token token in
      elim (Bool-cases (tokens_match enrollment_token token)) [
        | inl e ↦ let p = i.0 e in gets_token other p.0 (λ n. p.1 (p.0 ∙ n)) (rw e refl)
        | inr e ↦ is_refused other (λ p. cc (i.1 (p.0, λ n. p.1 (sym p.0 ∙ n)), e)) (rw e refl)
      ]

  -- A worker that presents its own token, unless that was revoked, keeps it; any other gets one if it
  -- presents the enrollment token, which must not be empty, and is refused if not.
  pub should_issue-Decision :
      (enrollment_token hardware_uuid token : Text) (db : Db)
      → Decision enrollment_token hardware_uuid token db
          (should_issue_worker_token sha256 enrollment_token hardware_uuid token db)
  unfolding should_issue_worker_token get_worker_by_hardware_uuid
  should_issue-Decision enrollment_token hardware_uuid token db =
      go (find_if (λ w. text_eq w.hardware_uuid hardware_uuid) db.workers) refl
    where
      go :
          (o : Option Worker)
          → find_if (λ w. text_eq w.hardware_uuid hardware_uuid) db.workers ≡ o
          → Decision enrollment_token hardware_uuid token db
              (decide sha256 enrollment_token token (or_not_found o))
      go none e =
          enrolls-Decision enrollment_token hardware_uuid token db
            (λ own. let k : err not_found ≡ ok own.0 = rw e at (own.1) in cc k)
      go (some w) e =
          let i =
            matches_hash_iff w.auth_token_hash w.auth_token_revoked_at
              (hash_worker_token sha256 token) in
          elim (Bool-cases (matches_live (live_hash w) (hash_worker_token sha256 token))) [
            | inl hit ↦ rw hit (keeps_token (w, ap or_not_found e, i.0 hit) refl)
            | inr miss ↦ rw miss (
                enrolls-Decision enrollment_token hardware_uuid token db (λ own.
                  let k : ok w ≡ ok own.0 = rw e at (own.1) in
                  let same : own.0 ≡ w = cc k in cc (i.1 (subst (Holds token) same (own.2)), miss)))
          ]
