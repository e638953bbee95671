-- ===== src/MyWorkstations/Rows.antt =====
-- Whose rows the operations of server/internal/db/workstations.go answer with, and how they fail.
use mini_control_public.Prelude.{
  ℕ, ◌≡◌, ◌∙◌, ◌⊎◌, refl, subst, Bool, true, false, List, [], ◌∷◌, Option, none, some,
  if◌then◌else◌, All, arith, Bool-cases, inl, inr, find_if-passes, keep_if, insert_by, order_by,
}
use mini_control_public.Text.{Text, text_eq_iff}
use mini_control_public.Model.{Workstation, PowerState, DesiredPowerState}
use mini_control_public.Db.{
  Db, Error, is_not_found, is_being_deleted, workstation_being_deleted, or_not_found, Result, ok,
  err, ◌>>=◌,
}
use mini_control_public.Workstations.{
  get_workstation_by_id_for_member, list_workstations_by_member_id, is_of, is_of_member, ensure_row,
  claim_existing_workstation, claim_in, claim_running, ensure_workstation_running_by_id_for_member,
  parse_desired,
}
use mini_control_public.Power.{
  update_workstation_desired_power_state_by_id, grant_wish, being_deleted,
}
use mini_control_public.MyWorkstations.{IsMine}

insert_by-All :
    (P : Workstation → Type 0) (before : Workstation → Workstation → Bool) (w : Workstation)
    (ws : List Workstation)
    → P w
    → All P ws
    → All P (insert_by before w ws)
insert_by-All P before w [] p h = (p, tt)
insert_by-All P before w (v ∷ ws) p h = elim (Bool-cases (before v w)) [
  | inl e ↦ rw e (h.0, insert_by-All P before w ws p h.1)
  | inr e ↦ rw e (p, h)
]

order_by-All :
    (P : Workstation → Type 0) (before : Workstation → Workstation → Bool) (ws : List Workstation)
    → All P ws
    → All P (order_by before ws)
order_by-All P before [] h = tt
order_by-All P before (w ∷ ws) h =
    insert_by-All P before w (order_by before ws) h.0 (order_by-All P before ws h.1)

keep_if-All :
    (P : Workstation → Type 0) (p : Workstation → Bool) (ws : List Workstation)
    → ((w : Workstation) → p w ≡ true → P w)
    → All P (keep_if p ws)
keep_if-All P p [] h = tt
keep_if-All P p (w ∷ ws) h = elim (Bool-cases (p w)) [
  | inl e ↦ rw e (h w e, keep_if-All P p ws h)
  | inr e ↦ rw e (keep_if-All P p ws h)
]

pub listed_own :
    (db : Db) (m : Text) → All (λ w. w.member_id ≡ m) (list_workstations_by_member_id db m)
unfolding list_workstations_by_member_id
listed_own db m =
    order_by-All (λ w. w.member_id ≡ m) _ _
      (keep_if-All (λ w. w.member_id ≡ m) (is_of_member m) db.workstations
        (λ w e. (text_eq_iff w.member_id m).0 e))

pub listed_same : {a b : List Workstation} → ok a ≡ ok b → a ≡ b
listed_same e = cc e

or_not_found-passed :
    (o : Option Workstation) (w : Workstation) → or_not_found o ≡ ok w → o ≡ some w
or_not_found-passed none w e = cc e
or_not_found-passed (some v) w e = cc e

pub got_own :
    (db : Db) (m i : Text) (w : Workstation)
    → get_workstation_by_id_for_member db m i ≡ ok w
    → IsMine m i w
unfolding get_workstation_by_id_for_member
got_own db m i w e =
    let hit = find_if-passes (is_of m i) db.workstations w (or_not_found-passed _ w e) in
    (
      (text_eq_iff w.member_id m).0 (ground (arith, hit)),
      (text_eq_iff w.id i).0 (ground (arith, hit)),
    )

-- A transaction on a row that answers keeps whose it is, and one that fails fails in this way.
data Keeps (v : Workstation) (Fails : Error → Type 0) : Result (Workstation × Db) → Type 0 where
  keeps_ok : (w : Workstation) (db : Db) → IsMine v.member_id v.id w → Keeps v Fails (ok (w, db))
  keeps_err : (e : Error) → Fails e → Keeps v Fails (err e)

abbrev pub Never : Error → Type 0
Never e = ⊥

Keeps-elim :
    {v : Workstation} {F : Error → Type 0} {r : Result (Workstation × Db)}
    → Keeps v F r
    → (w : Workstation) (db : Db) → r ≡ ok (w, db)
    → IsMine v.member_id v.id w
Keeps-elim {v} (keeps_ok w' db' own) w db e =
    let same : w' ≡ w = cc e in subst (IsMine v.member_id v.id) same own
Keeps-elim (keeps_err c f) w db e = cc e

claim_running-Keeps :
    (d : DesiredPowerState) (now : ℕ) (v : Workstation) (db : Db)
    → Keeps v Never (claim_running d now v db)
unfolding claim_running
claim_running-Keeps DesiredPowerState.running now v db = keeps_ok _ _ (refl, refl)
claim_running-Keeps DesiredPowerState.stopped now v db = keeps_ok _ _ (refl, refl)
claim_running-Keeps DesiredPowerState.deleted now v db = keeps_ok _ _ (refl, refl)

claim_in-Keeps :
    (p : PowerState) (now : ℕ) (v : Workstation) (db : Db)
    → being_deleted p ≡ false
    → Keeps v Never (claim_in p now v db)
unfolding claim_in
claim_in-Keeps PowerState.starting now v db e = claim_running-Keeps v.desired_power_state now v db
claim_in-Keeps PowerState.running now v db e = claim_running-Keeps v.desired_power_state now v db
claim_in-Keeps PowerState.stopping now v db e = keeps_ok _ _ (refl, refl)
claim_in-Keeps PowerState.stopped now v db e = keeps_ok _ _ (refl, refl)
claim_in-Keeps PowerState.error now v db e = keeps_ok _ _ (refl, refl)
claim_in-Keeps PowerState.deleting now v db e = cc e
claim_in-Keeps PowerState.deleted now v db e = cc e

-- A row that is on its way out is answered as it is.
revived-Keeps :
    (p : PowerState) (now : ℕ) (v : Workstation) (db : Db)
    → v.power_state ≡ p
    → Keeps v Never (ensure_row DesiredPowerState.running p now v db)
      × Keeps v Never (ensure_row DesiredPowerState.stopped p now v db)
unfolding ensure_row
revived-Keeps PowerState.deleting now v db e =
    (keeps_ok _ _ (refl, refl), keeps_ok _ _ (refl, refl))
revived-Keeps PowerState.deleted now v db e = (keeps_ok _ _ (refl, refl), keeps_ok _ _ (refl, refl))
revived-Keeps PowerState.starting now v db e =
    let k : Keeps v Never (claim_existing_workstation now v db) =
      unfold claim_existing_workstation in claim_in-Keeps v.power_state now v db (rw e refl) in
    (k, k)
revived-Keeps PowerState.running now v db e =
    let k : Keeps v Never (claim_existing_workstation now v db) =
      unfold claim_existing_workstation in claim_in-Keeps v.power_state now v db (rw e refl) in
    (k, k)
revived-Keeps PowerState.stopping now v db e =
    let k : Keeps v Never (claim_existing_workstation now v db) =
      unfold claim_existing_workstation in claim_in-Keeps v.power_state now v db (rw e refl) in
    (k, k)
revived-Keeps PowerState.stopped now v db e =
    let k : Keeps v Never (claim_existing_workstation now v db) =
      unfold claim_existing_workstation in claim_in-Keeps v.power_state now v db (rw e refl) in
    (k, k)
revived-Keeps PowerState.error now v db e =
    let k : Keeps v Never (claim_existing_workstation now v db) =
      unfold claim_existing_workstation in claim_in-Keeps v.power_state now v db (rw e refl) in
    (k, k)

ensure_row-Keeps :
    (d : DesiredPowerState) (now : ℕ) (v : Workstation) (db : Db)
    → Keeps v Never (ensure_row d v.power_state now v db)
unfolding ensure_row
ensure_row-Keeps DesiredPowerState.running now v db = (revived-Keeps v.power_state now v db refl).0
ensure_row-Keeps DesiredPowerState.stopped now v db = (revived-Keeps v.power_state now v db refl).1
ensure_row-Keeps DesiredPowerState.deleted now v db = keeps_ok _ _ (refl, refl)

-- The texts that Postgres reads as a desired power state.
abbrev pub IsWish : Text → Type 0
IsWish desired = (d : DesiredPowerState) × (parse_desired desired ≡ some d)

-- With a text that is none, the update fails after the row is found.
abbrev pub Fails : Text → Error → Type 0
Fails desired e = IsWish desired → (is_being_deleted e ≡ true)

granted-Keeps :
    (now : ℕ) (m i desired : Text) (o : Option DesiredPowerState) (v : Workstation) (db : Db)
    → parse_desired desired ≡ o
    → Keeps v (Fails desired) (grant_wish now m i o v db)
unfolding grant_wish
granted-Keeps now m i desired none v db e = keeps_err _ (λ w. cc (w.1, e))
granted-Keeps now m i desired (some d) v db e = keeps_ok _ _ (refl, refl)

-- The error of a lookup passes through, and a row that is found goes on.
module _ (m i : Text) (db : Db) (next : Workstation → Result (Workstation × Db)) where
  found_own :
      (F : Error → Type 0) (r : Result Workstation) (w : Workstation) (db' : Db)
      → ((v : Workstation) → r ≡ ok v → IsMine m i v)
      → ((v : Workstation) → IsMine m i v → Keeps v F (next v))
      → (r >>= next) ≡ ok (w, db')
      → IsMine m i w
  found_own F (err c) w db' own h e = cc e
  found_own F (ok v) w db' own h e =
      let mine = own v refl in
      let kept = Keeps-elim (h v mine) w db' e in (kept.0 ∙ mine.0, kept.1 ∙ mine.1)

  found-Fails :
      (F : Error → Type 0) (o : Option Workstation) (c : Error)
      → ((v : Workstation) → Keeps v F (next v))
      → (or_not_found o >>= next) ≡ err c
      → (is_not_found c ≡ true) ⊎ F c
  found-Fails F none c h e = inl (ground (arith, e))
  found-Fails F (some v) c h e = go (next v) (h v) e
    where
      go : (r : Result (Workstation × Db)) → Keeps v F r → r ≡ err c → (is_not_found c ≡ true) ⊎ F c
      go (ok p) k e = cc e
      go (err c') (keeps_err c'' f) e = inr (subst F (cc e) f)

update_row-Keeps :
    (now : ℕ) (m i desired : Text) (v : Workstation) (db : Db)
    → Keeps v (Fails desired) (
        if being_deleted v.power_state
        then err workstation_being_deleted
        else grant_wish now m i (parse_desired desired) v db)
update_row-Keeps now m i desired v db = elim (Bool-cases (being_deleted v.power_state)) [
  | inl leaving ↦ rw leaving (keeps_err _ (λ w. refl))
  | inr stays ↦ rw stays (granted-Keeps now m i desired (parse_desired desired) v db refl)
]

pub ensured_own :
    (now : ℕ) (m i : Text) (db db' : Db) (w : Workstation)
    → ensure_workstation_running_by_id_for_member now m i db ≡ ok (w, db')
    → IsMine m i w
unfolding ensure_workstation_running_by_id_for_member
ensured_own now m i db db' w =
    found_own m i db _ Never _ w db' (got_own db m i)
      (λ v _. ensure_row-Keeps v.desired_power_state now v db)

pub updated_own :
    (now : ℕ) (m i desired : Text) (db db' : Db) (w : Workstation)
    → update_workstation_desired_power_state_by_id now m i desired db ≡ ok (w, db')
    → IsMine m i w
unfolding update_workstation_desired_power_state_by_id
updated_own now m i desired db db' w =
    found_own m i db _ (Fails desired) _ w db' (got_own db m i)
      (λ v _. update_row-Keeps now m i desired v db)

pub ensure-Fails :
    (now : ℕ) (m i : Text) (db : Db) (c : Error)
    → ensure_workstation_running_by_id_for_member now m i db ≡ err c
    → (is_not_found c ≡ true) ⊎ Never c
unfolding ensure_workstation_running_by_id_for_member get_workstation_by_id_for_member
ensure-Fails now m i db c =
    found-Fails m i db _ Never _ c (λ v. ensure_row-Keeps v.desired_power_state now v db)

pub update-Fails :
    (now : ℕ) (m i desired : Text) (db : Db) (c : Error)
    → update_workstation_desired_power_state_by_id now m i desired db ≡ err c
    → (is_not_found c ≡ true) ⊎ Fails desired c
unfolding update_workstation_desired_power_state_by_id get_workstation_by_id_for_member
update-Fails now m i desired db c =
    found-Fails m i db _ (Fails desired) _ c (λ v. update_row-Keeps now m i desired v db)
