-- ===== src/Traffic/Row.antt =====
-- What one call can do to one row.
use mini_control_public.Prelude.{
  find_if-append, find_if-passes, ℕ, ◌≡◌, refl, sym, ap, subst, ◌∙◌, inl, inr, Bool, true, List,
  Option, some, arith, find_if, if◌then◌else◌, Bool-cases, Option-cases,
}
use mini_control_public.Text.{Text, text_eq, text_eq_iff}
use mini_control_public.Model.{Workstation}
use mini_control_public.Db.{Db}
use mini_control_public.Workstations.{
  has_id, is_of, parse_desired, parse_power_state, get_workstation_by_id_for_member,
  ensure_workstation_running_by_id_for_member,
}
use mini_control_public.Workstations.Visit.{visited, view-visit}
use mini_control_public.Power.{
  Report, update_workstation_desired_power_state_by_id, update_workstation_status,
}
use mini_control_public.Power.Effects.{wished, reported, view-wish, view-report}
use mini_control_public.Claim.Shape.{claim-Added}
use mini_control_public.Traffic.{Request, claims, visits, wishes, reports, step}
use mini_control_public.Traffic.View.{view, UniqueIds, found-view}

-- What becomes of the row `v`, as `o`, in a call at the time `now`.
pub data Move (now : ℕ) (r : Request) (v : Workstation) (o : Option Workstation) : Type 0 where
  keep : o ≡ some v → Move now r v o
  visit : r ≡ visits v.member_id v.id → o ≡ some (visited now v) → Move now r v o
  wish :
      (desired : Text)
      → r ≡ wishes v.member_id v.id desired
      → o ≡ some (wished now (parse_desired desired) v)
      → Move now r v o
  report :
      (s : Report)
      → r ≡ reports v.worker_id s
      → s.workstation_id ≡ v.id
      → o ≡ reported now s (parse_power_state s.power_state) v
      → Move now r v o

-- The row that an owner's lookup finds is the owner's.
owned :
    (m j : Text) (ws : List Workstation) (x : Workstation)
    → find_if (is_of m j) ws ≡ some x
    → (x.member_id ≡ m) × (x.id ≡ j)
owned m j ws x e =
    ground (arith, find_if-passes (is_of m j) ws x e, text_eq_iff x.member_id m, text_eq_iff x.id j)

-- Of two rows that stand under one ID in the map there is one.
one_row :
    (db : Db) (x v : Workstation) (i : Text)
    → UniqueIds db.workstations
    → (p : Workstation → Bool) → find_if p db.workstations ≡ some x
    → view db i ≡ some v
    → text_eq x.id i ≡ true
    → x ≡ v
one_row db x v i u p e h same =
    let e' : view db x.id ≡ some x = found-view p db.workstations x u e in
    let q : some x ≡ some v = sym e' ∙ ap (view db) ((text_eq_iff x.id i).0 same) ∙ h in cc

module _ (now : ℕ) (db : Db) (i : Text) (v : Workstation) (u : UniqueIds db.workstations)
    (there : view db i ≡ some v) where
  -- The call reads the row `x` and makes `o` of it.
  Move-found :
      (r : Request) (p : Workstation → Bool) (x : Workstation) (o : Option Workstation)
      → find_if p db.workstations ≡ some x
      → view (step db (now, r)) i ≡ (if text_eq x.id i then o else view db i)
      → Move now r x o
      → Move now r v (view (step db (now, r)) i)
  Move-found r p x o e h mv = elim (Bool-cases (text_eq x.id i)) [
    | inr other ↦ keep (rw (h, other) there)
    | inl same ↦
        let k : view (step db (now, r)) i ≡ o = rw same at h in
        rw k (subst (λ y. Move now r y o) (one_row db x v i u p e there same) mv)
  ]

  Move-visits : (m j : Text) → Move now (visits m j) v (view (step db (now, visits m j)) i)
  Move-visits m j = elim (Option-cases (find_if (is_of m j) db.workstations)) [
    | inl missing ↦
        keep (unfold step ensure_workstation_running_by_id_for_member in rw missing there)
    | inr (x, e) ↦
        Move-found (visits m j) (is_of m j) x (some (visited now x)) e
          (unfold step in
            view-visit now m j i db x u (unfold get_workstation_by_id_for_member in rw e))
          (visit (let o = owned m j db.workstations x e in cc (o.0, o.1)) refl)
  ]

  Move-wishes : (m j d : Text) → Move now (wishes m j d) v (view (step db (now, wishes m j d)) i)
  Move-wishes m j d = elim (Option-cases (find_if (is_of m j) db.workstations)) [
    | inl missing ↦
        keep (unfold step update_workstation_desired_power_state_by_id in rw missing there)
    | inr (x, e) ↦
        Move-found (wishes m j d) (is_of m j) x (some (wished now (parse_desired d) x)) e
          (unfold step in
            view-wish now m j i d db x u (unfold get_workstation_by_id_for_member in rw e))
          (wish d (let o = owned m j db.workstations x e in cc (o.0, o.1)) refl)
  ]

  Move-reports :
      (worker : Text) (s : Report)
      → Move now (reports worker s) v (view (step db (now, reports worker s)) i)
  Move-reports worker s = elim (Option-cases (view db s.workstation_id)) [
    | inl missing ↦
        keep
          (unfold step update_workstation_status in rw (missing, update_workstation_status) there)
    | inr (x, e) ↦ elim (Bool-cases (text_eq x.worker_id worker)) [
      | inr foreign ↦ keep (
          unfold step update_workstation_status in
          rw (e, update_workstation_status) (rw foreign there))
      | inl own ↦
          let w = (text_eq_iff x.worker_id worker).0 own in
          Move-found (reports worker s) (has_id s.workstation_id) x
            (reported now s (parse_power_state s.power_state) x) e
            (unfold step in view-report now worker s i db x u e w)
            (report s (cc w)
              (sym ((text_eq_iff x.id s.workstation_id).0 (find_if-passes _ db.workstations x e)))
              refl)
    ]
  ]

  Move-claims :
      (server_now : ℕ) (uuid m preferred : Text)
      → Move now
          (claims server_now uuid m preferred)
          v
          (view (step db (now, claims server_now uuid m preferred)) i)
  unfolding step
  Move-claims server_now uuid m preferred = elim (claim-Added now uuid m db server_now preferred) [
    | inl same ↦ keep (rw same there)
    | inr (n, _, _, added) ↦
        keep (rw added (rw (find_if-append (has_id i) db.workstations) (rw there refl)))
  ]

  -- Where workstation IDs are unique, whatever call comes, the row of an ID is kept, or visited or
  -- wished for by its own member, or reported on by its own worker; nothing else happens to it.
  pub step-Move : (r : Request) → Move now r v (view (step db (now, r)) i)
  step-Move (claims server_now uuid m preferred) = Move-claims server_now uuid m preferred
  step-Move (visits m j) = Move-visits m j
  step-Move (wishes m j d) = Move-wishes m j d
  step-Move (reports worker s) = Move-reports worker s
