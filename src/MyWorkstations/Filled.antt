-- ===== src/MyWorkstations/Filled.antt =====
-- The operations of server/internal/db/workstations.go, as what the handlers call.
use mini_control_public.Prelude.{
  ℕ, ◌≡◌, ◌≢◌, ◌↔◌, ◌⊎◌, refl, subst, Bool, true, false, some, All, Bool-cases, inl, inr,
}
use mini_control_public.Text.{Text, codes, text_eq, trim_space}
use mini_control_public.Model.{Workstation, Member, DesiredPowerState}
use mini_control_public.Db.{Db, Error, is_not_found, failure, Result, ok, err}
use mini_control_public.Workstations.{
  get_workstation_by_id_for_member, list_workstations_by_member_id,
  ensure_workstation_running_by_id_for_member, parse_desired,
}
use mini_control_public.Claim.{claim_workstation}
use mini_control_public.Claim.Shape.{claim-Own}
use mini_control_public.Power.{update_workstation_desired_power_state_by_id}
use mini_control_public.Http.{panic, body}
use mini_control_public.MyWorkstations.{
  WorkstationStore, Resolved, resolved, api_error, answer_get, answer_desired, get_resolved,
  desire_resolved, resolve_member_workstation, handle_get_my_workstation,
  handle_my_workstation_desired_state, handle_start_my_workstation, handle_stop_my_workstation,
  handle_release_my_workstation,
}
use mini_control_public.MyWorkstations.Rows.{
  listed_own, listed_same, got_own, ensured_own, updated_own, ensure-Fails, update-Fails, Never,
  Fails, IsWish,
}

-- The database at a time, with the ID that a claim would use.
abbrev pub db_store : ℕ → ℕ → Text → WorkstationStore Db
db_store now server_now uuid = record {
  list_workstations_by_member_id = λ db m. ok (list_workstations_by_member_id db m);
  get_workstation_by_id_for_member = get_workstation_by_id_for_member;
  ensure_workstation_running_by_id_for_member = ensure_workstation_running_by_id_for_member now;
  claim_workstation = claim_workstation now server_now uuid;
  update_workstation_desired_power_state_by_id = update_workstation_desired_power_state_by_id now;
  listed_own = λ db m ws e. subst (All (λ w. w.member_id ≡ m)) (listed_same e) (listed_own db m);
  got_own = got_own;
  ensured_own = ensured_own now;
  claimed_own =
      λ m preferred db db' w created. claim-Own now uuid m db server_now preferred w created db';
  updated_own = updated_own now;
}

-- An operation whose connection to the database fails.
abbrev pub fails_if : {A : Type 0} → Bool → Result A → Result A
fails_if true r = err failure
fails_if false r = r

pub fails_if-ok :
    {A : Type 0} (lost : Bool) (r : Result A) (x : A) → fails_if lost r ≡ ok x → r ≡ ok x
fails_if-ok true r x e = cc e
fails_if-ok false r x e = e

-- The store where the connection is lost in the lookups, or in the operations that change rows.
abbrev pub outage_store : {S : Type 0} → Bool → Bool → WorkstationStore S → WorkstationStore S
outage_store looking changing store = record {
  list_workstations_by_member_id =
      λ s m. fails_if looking (store.list_workstations_by_member_id s m);
  get_workstation_by_id_for_member =
      λ s m i. fails_if looking (store.get_workstation_by_id_for_member s m i);
  ensure_workstation_running_by_id_for_member =
      λ m i s. fails_if changing (store.ensure_workstation_running_by_id_for_member m i s);
  claim_workstation = λ m i s. fails_if changing (store.claim_workstation m i s);
  update_workstation_desired_power_state_by_id =
      λ m i d s. fails_if changing (store.update_workstation_desired_power_state_by_id m i d s);
  listed_own = λ s m ws e. store.listed_own s m ws (fails_if-ok looking _ _ e);
  got_own = λ s m i w e. store.got_own s m i w (fails_if-ok looking _ _ e);
  ensured_own = λ m i s s' w e. store.ensured_own m i s s' w (fails_if-ok changing _ _ e);
  claimed_own = λ m i s s' w c e. store.claimed_own m i s s' w c (fails_if-ok changing _ _ e);
  updated_own = λ m i d s s' w e. store.updated_own m i d s s' w (fails_if-ok changing _ _ e);
}

answer_get-NoPanic :
    (db : Db) (r : Result (Workstation × Db))
    → ((c : Error) → r ≡ err c → (is_not_found c ≡ true) ⊎ Never c)
    → (answer_get db r).0 ≢ panic
answer_get-NoPanic db (ok p) h = λ e. cc e
answer_get-NoPanic db (err c) h = elim (h c refl) [
  | inl missing ↦ rw missing (λ e. cc e)
  | inr f ↦ elim f [ ]
]

answer_desired-NoPanic :
    (db : Db) (r : Result (Workstation × Db)) (desired : Text)
    → IsWish desired
    → ((c : Error) → r ≡ err c → (is_not_found c ≡ true) ⊎ Fails desired c)
    → (answer_desired db r).0 ≢ panic
answer_desired-NoPanic db (ok p) desired w h = λ e. cc e
answer_desired-NoPanic db (err c) desired w h = elim (h c refl) [
  | inl missing ↦ rw missing (λ e. cc e)
  | inr f ↦ elim (Bool-cases (is_not_found c)) [
    | inl missing ↦ rw missing (λ e. cc e)
    | inr found ↦ rw (found, f w) (λ e. cc e)
  ]
]

-- The row is looked up, and the connection is lost behind that.
abbrev pub Unanswered : Bool → Resolved → Type 0
Unanswered changing r = (changing ≡ true) × ((w : Workstation) × (r ≡ resolved w))

answer_get-panic :
    (db : Db) (changing : Bool) (r : Result (Workstation × Db)) (w : Workstation)
    → ((c : Error) → r ≡ err c → (is_not_found c ≡ true) ⊎ Never c)
    → ((answer_get db (fails_if changing r)).0 ≡ panic) ↔ Unanswered changing (resolved w)
answer_get-panic db true r w h = (λ e. (refl, (w, refl)), λ u. refl)
answer_get-panic db false r w h = (λ e. absurd (answer_get-NoPanic db r h e), λ u. cc u.0)

answer_desired-panic :
    (db : Db) (changing : Bool) (r : Result (Workstation × Db)) (w : Workstation) (desired : Text)
    → IsWish desired
    → ((c : Error) → r ≡ err c → (is_not_found c ≡ true) ⊎ Fails desired c)
    → ((answer_desired db (fails_if changing r)).0 ≡ panic) ↔ Unanswered changing (resolved w)
answer_desired-panic db true r w desired d h = (λ e. (refl, (w, refl)), λ u. refl)
answer_desired-panic db false r w desired d h =
    (λ e. absurd (answer_desired-NoPanic db r desired d h e), λ u. cc u.0)

module _ (now server_now : ℕ) (uuid : Text) (looking changing : Bool) where
  abbrev pub flaky : WorkstationStore Db
  flaky = outage_store looking changing (db_store now server_now uuid)

  get_resolved-panic :
      (m : Member) (db : Db) (r : Resolved)
      → ((get_resolved flaky m db r).0 ≡ panic) ↔ Unanswered changing r
  unfolding get_resolved
  get_resolved-panic m db (api_error status why) = (λ e. cc e, λ u. cc u.1.1)
  get_resolved-panic m db (resolved w) =
      answer_get-panic db changing _ w (λ c. ensure-Fails now m.id w.id db c)

  desire_resolved-panic :
      (desired : Text) (m : Member) (db : Db) (r : Resolved)
      → IsWish desired
      → ((desire_resolved flaky desired m db r).0 ≡ panic) ↔ Unanswered changing r
  unfolding desire_resolved
  desire_resolved-panic desired m db (api_error status why) d = (λ e. cc e, λ u. cc u.1.1)
  desire_resolved-panic desired m db (resolved w) d =
      answer_desired-panic db changing _ w desired d (λ c. update-Fails now m.id w.id desired db c)

  -- Let the connection to the database be lost or not in the lookups, and lost or not in the
  -- operations that change rows. A member's visit, and a start, a stop or a release of theirs,
  -- panics exactly if the lookup finds the workstation and the connection is lost behind it.
  pub handlers-panic_iff :
      (m : Member) (i : Text) (db : Db)
      → let r = resolve_member_workstation flaky db (some m) (trim_space i) in
        (((handle_get_my_workstation flaky (some m) i db).0 ≡ panic) ↔ Unanswered changing r)
        × (((handle_start_my_workstation flaky (some m) (body i) db).0 ≡ panic)
            ↔ Unanswered changing r)
        × (((handle_stop_my_workstation flaky (some m) (body i) db).0 ≡ panic)
            ↔ Unanswered changing r)
        × (((handle_release_my_workstation flaky (some m) (body i) db).0 ≡ panic)
            ↔ Unanswered changing r)
  unfolding handle_get_my_workstation handle_start_my_workstation handle_stop_my_workstation
      handle_release_my_workstation handle_my_workstation_desired_state parse_desired text_eq
  handlers-panic_iff m i db = (
    get_resolved-panic m db _,
    desire_resolved-panic (codes "running") m db _ (DesiredPowerState.running, refl),
    desire_resolved-panic (codes "stopped") m db _ (DesiredPowerState.stopped, refl),
    desire_resolved-panic (codes "deleted") m db _ (DesiredPowerState.deleted, refl),
  )
