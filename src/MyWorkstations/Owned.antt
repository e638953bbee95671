-- ===== src/MyWorkstations/Owned.antt =====
-- Whose workstations the handlers answer with.
use mini_control_public.Prelude.{
  ℕ, ◌≡◌, ◌∙◌, refl, subst, Bool, false, List, [], ◌∷◌, some, All, arith, Bool-cases, inl, inr,
}
use mini_control_public.Text.{Text, trim_space}
use mini_control_public.Model.{Workstation, Member}
use mini_control_public.Db.{is_not_found, is_being_deleted, Result, ok, err}
use mini_control_public.Http.{Reply, reply, refuse, panic, Message, body, is_empty}
use mini_control_public.MyWorkstations.{
  WorkstationStore, IsMine, Resolved, resolved, api_error, is_claim_conflict, answer_get,
  answer_desired, answer_claim, answer_list, resolve_only, resolve_named, get_resolved,
  desire_resolved, resolve_member_workstation, handle_list_my_workstations,
  handle_get_my_workstation, handle_claim_my_workstation, handle_my_workstation_desired_state,
}

-- What a reply shows, if it shows something, is of this kind.
pub data Answers {A : Type 0} (P : A → Type 0) : Reply A → Type 0 where
  answers_reply : (status : ℕ) (a : A) → P a → Answers P (reply status a)
  answers_refuse : (status : ℕ) (why : Message) → Answers P (refuse status why)
  answers_panic : Answers P panic

-- A workstation of the member, and the one that is named if one is.
abbrev pub IsWanted : Text → Text → Workstation → Type 0
IsWanted m i w = (w.member_id ≡ m) × (is_empty i ≡ false → w.id ≡ i)

answer_get-Answers :
    {S : Type 0} (P : Workstation → Type 0) (s : S) (r : Result (Workstation × S))
    → ((w : Workstation) (s' : S) → r ≡ ok (w, s') → P w)
    → Answers P (answer_get s r).0
answer_get-Answers P s (ok (w, s')) h = answers_reply 200 w (h w s' refl)
answer_get-Answers P s (err e) h = elim (Bool-cases (is_not_found e)) [
  | inl missing ↦ rw missing (answers_refuse _ _)
  | inr other ↦ rw other answers_panic
]

answer_desired-Answers :
    {S : Type 0} (P : Workstation → Type 0) (s : S) (r : Result (Workstation × S))
    → ((w : Workstation) (s' : S) → r ≡ ok (w, s') → P w)
    → Answers P (answer_desired s r).0
answer_desired-Answers P s (ok (w, s')) h = answers_reply 200 w (h w s' refl)
answer_desired-Answers P s (err e) h = elim (Bool-cases (is_not_found e)) [
  | inl missing ↦ rw missing (answers_refuse _ _)
  | inr other ↦ elim (Bool-cases (is_being_deleted e)) [
    | inl leaving ↦ rw (other, leaving) (answers_refuse _ _)
    | inr neither ↦ rw (other, neither) answers_panic
  ]
]

answer_claim-Answers :
    {S : Type 0} (P : Workstation → Type 0) (s : S) (r : Result ((Workstation × Bool) × S))
    → ((w : Workstation) (created : Bool) (s' : S) → r ≡ ok ((w, created), s') → P w)
    → Answers P (answer_claim s r).0
answer_claim-Answers P s (ok ((w, created), s')) h = answers_reply _ w (h w created s' refl)
answer_claim-Answers P s (err e) h = elim (Bool-cases (is_claim_conflict e)) [
  | inl conflict ↦ rw conflict (answers_refuse _ _)
  | inr other ↦ rw other (answers_refuse _ _)
]

module _ {S : Type 0} (store : WorkstationStore S) where
  resolve_only-IsWanted :
      (m : Text) (w : Workstation) (r : Result (List Workstation))
      → ((ws : List Workstation) → r ≡ ok ws → All (λ v. v.member_id ≡ m) ws)
      → resolve_only r ≡ resolved w
      → w.member_id ≡ m
  resolve_only-IsWanted m w (ok []) h e = cc e
  resolve_only-IsWanted m w (ok (v ∷ [])) h e =
      let same : v ≡ w = cc e in subst (λ (x : Workstation). x.member_id ≡ m) same (h _ refl).0
  resolve_only-IsWanted m w (ok (v ∷ u ∷ ws)) h e = cc e
  resolve_only-IsWanted m w (err c) h e = cc e

  resolve_named-passed :
      (w : Workstation) (r : Result Workstation) → resolve_named r ≡ resolved w → r ≡ ok w
  resolve_named-passed w (ok v) e = cc e
  resolve_named-passed w (err c) e = ground (arith, e)

  pub resolve-IsWanted :
      (s : S) (m : Member) (i : Text) (w : Workstation)
      → resolve_member_workstation store s (some m) i ≡ resolved w
      → IsWanted m.id i w
  unfolding resolve_member_workstation
  resolve-IsWanted s m [] w e = (
    resolve_only-IsWanted m.id w (store.list_workstations_by_member_id s m.id)
        (λ ws. store.listed_own s m.id ws) e,
    λ e. cc e,
  )
  resolve-IsWanted s m (c ∷ cs) w e =
      let own = store.got_own s m.id (c ∷ cs) w (resolve_named-passed w _ e) in (own.0, λ _. own.1)

  -- The workstation that the database answers for a member with: the named one, or their only one.
  abbrev pub IsHeld : S → Text → Text → Workstation → Type 0
  IsHeld s m [] w = (w.member_id ≡ m) × (store.list_workstations_by_member_id s m ≡ ok (w ∷ []))
  IsHeld s m (c ∷ cs) w =
      (w.member_id ≡ m)
      × (w.id ≡ c ∷ cs)
      × (store.get_workstation_by_id_for_member s m (c ∷ cs) ≡ ok w)

  resolve_only-passed :
      (w : Workstation) (r : Result (List Workstation))
      → resolve_only r ≡ resolved w
      → r ≡ ok (w ∷ [])
  resolve_only-passed w (ok []) e = cc e
  resolve_only-passed w (ok (v ∷ [])) e = cc e
  resolve_only-passed w (ok (v ∷ u ∷ ws)) e = cc e
  resolve_only-passed w (err c) e = cc e

  pub resolve-IsHeld :
      (s : S) (m : Member) (i : Text) (w : Workstation)
      → resolve_member_workstation store s (some m) i ≡ resolved w
      → IsHeld s m.id i w
  unfolding resolve_member_workstation
  resolve-IsHeld s m [] w e = (
    (resolve-IsWanted s m [] w e).0,
    resolve_only-passed w (store.list_workstations_by_member_id s m.id) e,
  )
  resolve-IsHeld s m (c ∷ cs) w e =
      let got = resolve_named-passed w _ e in
      let own = store.got_own s m.id (c ∷ cs) w got in (own.0, own.1, got)

  get_resolved-Answers :
      (m : Member) (P : Workstation → Type 0) (s : S) (r : Resolved)
      → ((w v : Workstation) → r ≡ resolved w → IsMine m.id w.id v → P v)
      → Answers P (get_resolved store m s r).0
  unfolding get_resolved
  get_resolved-Answers m P s (api_error status why) h = answers_refuse status why
  get_resolved-Answers m P s (resolved w) h =
      answer_get-Answers P s _ (λ v s' e. h w v refl (store.ensured_own m.id w.id s s' v e))

  desire_resolved-Answers :
      (desired : Text) (m : Member) (P : Workstation → Type 0) (s : S) (r : Resolved)
      → ((w v : Workstation) → r ≡ resolved w → IsMine m.id w.id v → P v)
      → Answers P (desire_resolved store desired m s r).0
  unfolding desire_resolved
  desire_resolved-Answers desired m P s (api_error status why) h = answers_refuse status why
  desire_resolved-Answers desired m P s (resolved w) h =
      answer_desired-Answers P s _
        (λ v s' e. h w v refl (store.updated_own m.id w.id desired s s' v e))

  IsWanted-passed :
      (s : S) (m : Member) (i : Text) (w v : Workstation)
      → resolve_member_workstation store s (some m) i ≡ resolved w
      → IsMine m.id w.id v
      → IsWanted m.id i v
  IsWanted-passed s m i w v e own = (own.0, λ n. own.1 ∙ (resolve-IsWanted s m i w e).1 n)

  answer_list-Answers :
      (m : Text) (r : Result (List Workstation))
      → ((ws : List Workstation) → r ≡ ok ws → All (λ v. v.member_id ≡ m) ws)
      → Answers (All (λ v. v.member_id ≡ m)) (answer_list r)
  answer_list-Answers m (ok ws) h = answers_reply 200 ws (h ws refl)
  answer_list-Answers m (err e) h = answers_refuse _ _

  -- Whatever a member lists, looks at, claims, starts, stops or releases, each workstation that a
  -- reply shows is the member's, and it is the one that the request names if it names one.
  pub handlers-IsWanted :
      (m : Member) (named desired : Text) (s : S)
      → Answers (All (λ w. w.member_id ≡ m.id)) (handle_list_my_workstations store (some m) s)
        × Answers
            (λ w. w.member_id ≡ m.id)
            (handle_claim_my_workstation store (some m) (body named) s).0
        × Answers
            (IsWanted m.id (trim_space named))
            (handle_get_my_workstation store (some m) named s).0
        × Answers
            (IsWanted m.id (trim_space named))
            (handle_my_workstation_desired_state store desired (some m) (body named) s).0
  unfolding handle_list_my_workstations handle_claim_my_workstation handle_get_my_workstation
      handle_my_workstation_desired_state
  handlers-IsWanted m named desired s = (
    answer_list-Answers m.id _ (λ ws. store.listed_own s m.id ws),
    answer_claim-Answers (λ w. w.member_id ≡ m.id) s _
        (λ w created s' e. store.claimed_own m.id (trim_space named) s s' w created e),
    get_resolved-Answers m (IsWanted m.id (trim_space named)) s _
        (λ w v. IsWanted-passed s m (trim_space named) w v),
    desire_resolved-Answers desired m (IsWanted m.id (trim_space named)) s _
        (λ w v. IsWanted-passed s m (trim_space named) w v),
  )
