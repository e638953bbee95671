-- ===== src/Traffic/Released.antt =====
-- A workstation that its member has released stays released, whatever is called afterwards.
use mini_control_public.Prelude.{
  ℕ, ◌≡◌, refl, inl, inr, false, List, [], ◌∷◌, Option, none, some, arith, All, Option-cases,
  Bool-cases,
}
use mini_control_public.Text.{Text, codes, text_eq}
use mini_control_public.Model.{Workstation, PowerState, DesiredPowerState}
use mini_control_public.Db.{Db}
use mini_control_public.Workstations.{parse_desired}
use mini_control_public.Power.{Report}
use mini_control_public.Power.Effects.{wished, reported}
use mini_control_public.Traffic.{Request, step, run}
use mini_control_public.Traffic.View.{view, UniqueIds}
use mini_control_public.Traffic.Statement.{brings, step-UniqueIds, step-absent}
use mini_control_public.Traffic.Row.{Move, keep, visit, wish, report, step-Move}

-- The row of a workstation that is wanted deleted and is on its way.
abbrev pub IsLeaving : Workstation → Type 0
IsLeaving v =
    (v.desired_power_state ≡ DesiredPowerState.deleted) × (v.power_state ≡ PowerState.deleting)

-- Nothing but the error note and its time differs.
abbrev pub SamePlace : Workstation → Workstation → Type 0
SamePlace v w =
    (w.id ≡ v.id)
    × (w.member_id ≡ v.member_id)
    × (w.worker_id ≡ v.worker_id)
    × (w.slot ≡ v.slot)
    × (w.vm_name ≡ v.vm_name)
    × (w.ip_address ≡ v.ip_address)

abbrev pub Departs : Workstation → Option Workstation → Type 0
Departs v none = Unit {0}
Departs v (some w) = IsLeaving w × SamePlace v w

Departs-of : (v : Workstation) (o o' : Option Workstation) → o ≡ o' → Departs v o' → Departs v o
Departs-of v o o' e h = rw e h

Departs-reported :
    (now : ℕ) (s : Report) (p : Option PowerState) (v : Workstation)
    → IsLeaving v
    → Departs v (reported now s p v)
Departs-reported now s p v h = elim (Bool-cases (text_eq s.power_state (codes "deleted"))) [
  | inl gone ↦ rw (h.0, gone) tt
  | inr stays ↦ ground arith
]

-- A machine that is being deleted grants no wish.
Departs-wished :
    (now : ℕ) (o : Option DesiredPowerState) (v : Workstation)
    → IsLeaving v
    → Departs v (some (wished now o v))
Departs-wished now none v h = (h, (refl, refl, refl, refl, refl, refl))
Departs-wished now (some d) v h = ground arith

Departs-Move :
    (now : ℕ) (r : Request) (v : Workstation) (o : Option Workstation)
    → IsLeaving v
    → Move now r v o
    → Departs v o
Departs-Move now r v o h (keep e) = Departs-of v o _ e (h, (refl, refl, refl, refl, refl, refl))
Departs-Move now r v o h (visit _ e) = Departs-of v o _ e (ground arith)
Departs-Move now r v o h (wish d _ e) =
    Departs-of v o _ e (Departs-wished now (parse_desired d) v h)
Departs-Move now r v o h (report s _ _ e) = Departs-of v o _ e (Departs-reported now s _ v h)

Departs-trans :
    (v w : Workstation) (o : Option Workstation) → SamePlace v w → Departs w o → Departs v o
Departs-trans v w none s d = tt
Departs-trans v w (some x) s d = (d.0, ground arith)

module _ (i : Text) where
  -- No later claim uses the ID.
  abbrev pub Avoids : List (ℕ × Request) → Type 0
  Avoids rs = All (λ r. brings r.1 i ≡ false) rs

  run-absent :
      (rs : List (ℕ × Request)) (db : Db) → Avoids rs → view db i ≡ none → view (run db rs) i ≡ none
  unfolding run
  run-absent [] db a h = h
  run-absent (r ∷ rs) db a h = run-absent rs (step db r) a.1 (step-absent db r.0 r.1 i a.0 h)

  -- Where workstation IDs are unique and no claim of the history uses the ID, a workstation that is
  -- wanted deleted and is being deleted stays so through every history of claims, visits, wishes
  -- and reports, with its member, worker, slot, VM name and address, or its row is gone.
  pub run-released :
      (rs : List (ℕ × Request)) (db : Db) (v : Workstation)
      → UniqueIds db.workstations
      → Avoids rs
      → view db i ≡ some v
      → IsLeaving v
      → Departs v (view (run db rs) i)
  unfolding run
  run-released [] db v u a h l = rw h (l, (refl, refl, refl, refl, refl, refl))
  run-released (r ∷ rs) db v u a h l =
      let moved : Departs v (view (step db r) i) =
        Departs-Move r.0 r.1 v _ l (step-Move r.0 db i v u h r.1) in
      elim (Option-cases (view (step db r) i)) [
        | inl e ↦ rw (run-absent rs (step db r) a.1 e) tt
        | inr (w, e) ↦
            let d : Departs v (some w) = rw e at moved in
            Departs-trans v w _ d.1
              (run-released rs (step db r) w (step-UniqueIds db r.0 r.1 u) a.1 e d.0)
      ]
