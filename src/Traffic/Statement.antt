-- ===== src/Traffic/Statement.antt =====
-- Each call commits at most one statement on the table of workstations.
use mini_control_public.Prelude.{
  find_if-append, find_if-update_where, delete_where, ℕ, ◌≡◌, refl, inl, inr, Bool, true, false, [],
  ◌∷◌, ◌++◌, Option, none, some, arith, All, Option-cases, Bool-cases, find_if, sym, ap,
}
use mini_control_public.Text.{Text, codes, text_eq, text_eq_iff}
use mini_control_public.Model.{Workstation, PowerState, DesiredPowerState}
use mini_control_public.Db.{Db, after}
use mini_control_public.Workstations.{
  has_id, is_of, set_rows, parse_desired, claim_in, claim_running, get_workstation_by_id_for_member,
  revive, want_running, ensure_row,
}
use mini_control_public.Power.{
  Report, being_deleted, wish, wants_deleted, grant_wish, note_error, apply_report, report_on,
  set_status, update_workstation_status,
}
use mini_control_public.Claim.Shape.{claim-Added}
use mini_control_public.Traffic.{Request, claims, visits, wishes, reports, step}
use mini_control_public.Traffic.View.{
  view, UniqueIds, UniqueIds-update_where, UniqueIds-delete_where, UniqueIds-snoc,
  view-delete_where,
}

-- The call whose insertion brings this ID in.
abbrev pub brings : Request → Text → Bool
brings (claims server_now uuid m preferred) i = text_eq uuid i
brings r i = false

pub data Statement (r : Request) (db db' : Db) : Type 0 where
  nothing : db' ≡ db → Statement r db db'
  update :
      (q : Workstation → Bool) (f : Workstation → Workstation)
      → ((w : Workstation) → (f w).id ≡ w.id)
      → db' ≡ set_rows q f db
      → Statement r db db'
  remove :
      (k : Text)
      → db' ≡ record db { workstations = delete_where (has_id k) db.workstations }
      → Statement r db db'
  insert :
      (n : Workstation)
      → brings r n.id ≡ true
      → All (λ v. text_eq v.id n.id ≡ false) db.workstations
      → db' ≡ record db { workstations = db.workstations ++ n ∷ [] }
      → Statement r db db'

module _ (now : ℕ) (r : Request) (v : Workstation) (db : Db) where
  Statement-claim_running :
      (e : DesiredPowerState) → Statement r db (after db (claim_running e now v db))
  unfolding claim_running
  Statement-claim_running DesiredPowerState.running = nothing refl
  Statement-claim_running e = update (has_id v.id) (want_running now) (λ w. refl) refl

  Statement-ensure :
      (d : DesiredPowerState) (p : PowerState) → Statement r db (after db (ensure_row d p now v db))
  unfolding ensure_row
  Statement-ensure DesiredPowerState.deleted p = nothing refl
  Statement-ensure d PowerState.deleting = nothing refl
  Statement-ensure d PowerState.deleted = nothing refl
  Statement-ensure d p = Statement-existing v.power_state
    where
      Statement-existing : (s : PowerState) → Statement r db (after db (claim_in s now v db))
      Statement-existing PowerState.deleting = nothing refl
      Statement-existing PowerState.deleted = nothing refl
      Statement-existing PowerState.stopped = update (has_id v.id) (revive now) (λ w. refl) refl
      Statement-existing PowerState.error = update (has_id v.id) (revive now) (λ w. refl) refl
      Statement-existing PowerState.stopping = update (has_id v.id) (revive now) (λ w. refl) refl
      Statement-existing s = Statement-claim_running v.desired_power_state

  Statement-grant :
      (m i : Text) (o : Option DesiredPowerState)
      → Statement r db (after db (grant_wish now m i o v db))
  unfolding grant_wish
  Statement-grant m i none = nothing refl
  Statement-grant m i (some d) = update (is_of m i) (wish now d v) (λ w. refl) refl

  Statement-set_status :
      (s : Report) (o : Option PowerState) → Statement r db (after db (set_status now s v o db))
  unfolding set_status
  Statement-set_status s none = nothing refl
  Statement-set_status s (some p) = update (has_id v.id) (apply_report now s p) (λ w. refl) refl

  Statement-report : (s : Report) → Statement r db (after db (report_on now s v db))
  unfolding report_on
  Statement-report s = elim (Bool-cases (wants_deleted v.desired_power_state)) [
    | inr stays ↦ rw stays (elim (Bool-cases (text_eq s.power_state (codes "deleted"))) [
      | inl e ↦ rw e (Statement-set_status s _)
      | inr e ↦ rw e (Statement-set_status s _)
    ])
    | inl goes ↦ rw goes (elim (Bool-cases (text_eq s.power_state (codes "deleted"))) [
      | inl e ↦ rw e (remove v.id refl)
      | inr e ↦ rw e (update (has_id v.id) (note_error now s) (λ w. refl) refl)
    ])
  ]

-- Each call commits at most one statement.
pub step-Statement : (db : Db) (now : ℕ) (r : Request) → Statement r db (step db (now, r))
unfolding step get_workstation_by_id_for_member
step-Statement db now (claims server_now uuid m preferred) =
    elim (claim-Added now uuid m db server_now preferred) [
      | inl e ↦ nothing e
      | inr (n, own, fresh, e) ↦ insert n ((text_eq_iff uuid n.id).1 (sym own)) fresh e
    ]
step-Statement db now (visits m j) = elim (Option-cases (find_if (is_of m j) db.workstations)) [
  | inl missing ↦ rw missing (nothing refl)
  | inr (v, e) ↦ rw e (Statement-ensure now (visits m j) v db v.desired_power_state v.power_state)
]
step-Statement db now (wishes m j d) = elim (Option-cases (find_if (is_of m j) db.workstations)) [
  | inl missing ↦ rw missing (nothing refl)
  | inr (v, e) ↦ rw e (elim (Bool-cases (being_deleted v.power_state)) [
    | inl b ↦ rw b (nothing refl)
    | inr b ↦ rw b (Statement-grant now (wishes m j d) v db m j (parse_desired d))
  ])
]
step-Statement db now (reports worker s) =
    elim (Option-cases (find_if (has_id s.workstation_id) db.workstations)) [
      | inl missing ↦ rw (missing, update_workstation_status) (nothing refl)
      | inr (v, e) ↦
          rw (e, update_workstation_status)
            (elim (Bool-cases (text_eq v.worker_id worker)) [
              | inl b ↦ rw b (Statement-report now (reports worker s) v db s)
              | inr b ↦ rw b (nothing refl)
            ])
    ]

-- IDs stay unique.
pub step-UniqueIds :
    (db : Db) (now : ℕ) (r : Request)
    → UniqueIds db.workstations
    → UniqueIds (step db (now, r)).workstations
step-UniqueIds db now r u = go _ (step-Statement db now r)
  where
    go : (db' : Db) → Statement r db db' → UniqueIds db'.workstations
    go db' (nothing e) = rw e u
    go db' (update q f keeps e) = rw e (UniqueIds-update_where f keeps q db.workstations u)
    go db' (remove k e) = rw e (UniqueIds-delete_where (has_id k) db.workstations u)
    go db' (insert n own fresh e) = rw e (UniqueIds-snoc db.workstations n fresh u)

-- A row that is not there comes in by an insertion alone.
pub step-absent :
    (db : Db) (now : ℕ) (r : Request) (i : Text)
    → brings r i ≡ false
    → view db i ≡ none
    → view (step db (now, r)) i ≡ none
step-absent db now r i other h = go _ (step-Statement db now r)
  where
    go : (db' : Db) → Statement r db db' → view db' i ≡ none
    go db' (nothing e) = rw e h
    go db' (update q f keeps e) =
        rw e
          (rw (find_if-update_where (has_id i) q f db.workstations (λ w. rw (keeps w))) (rw h refl))
    go db' (remove k e) = rw e (rw (view-delete_where db k i) (ground (arith)))
    go db' (insert n own fresh e) = rw e (
        rw (find_if-append (has_id i) db.workstations) (
          rw h (elim (Bool-cases (text_eq n.id i)) [
            | inl same ↦ cc (own, other, ap (brings r) ((text_eq_iff n.id i).0 same))
            | inr b ↦ rw b refl
          ])))
