-- ===== src/MyWorkstations.antt =====
-- server/internal/api/rest/workstation.go: the members' own workstations, over the operations of the
-- database that the handlers call. A handler gets the member of the request, its query or body, and
-- the state of the database, and gives the reply and the state behind it.
pub mod Owned
pub mod Rows
pub mod Filled
use mini_control_public.Prelude.{
  ℕ, ◌≡◌, Bool, true, false, List, [], ◌∷◌, Option, none, some, if◌then◌else◌, All,
}
use mini_control_public.Text.{Text, codes, trim_space}
use mini_control_public.Model.{Workstation, Member}
use mini_control_public.Db.{
  Error, is_not_found, is_being_deleted, workstation_being_deleted, no_active_workers,
  no_slots_available, target_worker_full, target_worker_unavailable, Result, ok, err,
}
use mini_control_public.Http.{
  Reply, reply, refuse, panic, Message, unauthorized, invalid_json, workstation_not_found,
  failed_to_load_workstation, failed_to_list_workstations, failed_to_update_workstation,
  failed_to_claim_workstation, workstation_id_is_required, workstation_is_being_deleted, of_db,
  Body, with_body, is_empty,
}

abbrev pub IsMine : Text → Text → Workstation → Type 0
IsMine m i w = (w.member_id ≡ m) × (w.id ≡ i)

-- The operations of package db, with the time and the new ID that a call uses, and their laws.
pub record WorkstationStore (S : Type 0) : Type 0 where
  pub list_workstations_by_member_id : S → Text → Result (List Workstation)
  pub get_workstation_by_id_for_member : S → Text → Text → Result Workstation
  pub ensure_workstation_running_by_id_for_member : Text → Text → S → Result (Workstation × S)
  pub claim_workstation : Text → Text → S → Result ((Workstation × Bool) × S)
  pub update_workstation_desired_power_state_by_id :
      Text → Text → Text → S → Result (Workstation × S)
  pub listed_own :
      (s : S) (m : Text) (ws : List Workstation)
      → list_workstations_by_member_id s m ≡ ok ws
      → All (λ w. w.member_id ≡ m) ws
  pub got_own :
      (s : S) (m i : Text) (w : Workstation)
      → get_workstation_by_id_for_member s m i ≡ ok w
      → IsMine m i w
  pub ensured_own :
      (m i : Text) (s s' : S) (w : Workstation)
      → ensure_workstation_running_by_id_for_member m i s ≡ ok (w, s')
      → IsMine m i w
  pub claimed_own :
      (m preferred : Text) (s s' : S) (w : Workstation) (created : Bool)
      → claim_workstation m preferred s ≡ ok ((w, created), s')
      → w.member_id ≡ m
  pub updated_own :
      (m i desired : Text) (s s' : S) (w : Workstation)
      → update_workstation_desired_power_state_by_id m i desired s ≡ ok (w, s')
      → IsMine m i w

-- A workstation, or an `apiError`.
pub data Resolved : Type 0 where
  resolved : Workstation → Resolved
  api_error : ℕ → Message → Resolved

abbrev pub is_claim_conflict : Error → Bool
is_claim_conflict workstation_being_deleted = true
is_claim_conflict no_active_workers = true
is_claim_conflict no_slots_available = true
is_claim_conflict target_worker_full = true
is_claim_conflict target_worker_unavailable = true
is_claim_conflict e = false

abbrev pub resolve_only : Result (List Workstation) → Resolved
resolve_only (ok []) = api_error 404 workstation_not_found
resolve_only (ok (w ∷ [])) = resolved w
resolve_only (ok (w ∷ v ∷ ws)) = api_error 400 workstation_id_is_required
resolve_only (err e) = api_error 500 failed_to_load_workstation

abbrev pub resolve_named : Result Workstation → Resolved
resolve_named (ok w) = resolved w
resolve_named (err e) =
    if is_not_found e
    then api_error 404 workstation_not_found
    else api_error 500 failed_to_load_workstation

-- What follows the two operations; the branches behind the named errors use the missing row.
abbrev pub answer_get : {S : Type 0} → S → Result (Workstation × S) → Reply Workstation × S
answer_get s (ok (w, s')) = (reply 200 w, s')
answer_get s (err e) = (if is_not_found e then refuse 404 workstation_not_found else panic, s)

abbrev pub answer_desired : {S : Type 0} → S → Result (Workstation × S) → Reply Workstation × S
answer_desired s (ok (w, s')) = (reply 200 w, s')
answer_desired s (err e) = (
  if is_not_found e
      then refuse 404 workstation_not_found
      else if is_being_deleted e
      then refuse 409 workstation_is_being_deleted
      else panic,
  s,
)

abbrev pub answer_claim :
    {S : Type 0} → S → Result ((Workstation × Bool) × S) → Reply Workstation × S
answer_claim s (ok ((w, created), s')) = (reply (if created then 201 else 200) w, s')
answer_claim s (err e) = (
  if is_claim_conflict e then refuse 409 (of_db e) else refuse 500 failed_to_claim_workstation,
  s,
)

abbrev pub answer_list : Result (List Workstation) → Reply (List Workstation)
answer_list (ok ws) = reply 200 ws
answer_list (err e) = refuse 500 failed_to_list_workstations

module _ {S : Type 0} (store : WorkstationStore S) where
  unfoldable pub resolve_member_workstation : S → Option Member → Text → Resolved
  resolve_member_workstation s none i = api_error 401 unauthorized
  resolve_member_workstation s (some m) i =
      if is_empty i
      then resolve_only (store.list_workstations_by_member_id s m.id)
      else resolve_named (store.get_workstation_by_id_for_member s m.id i)

  unfoldable pub handle_list_my_workstations : Option Member → S → Reply (List Workstation)
  handle_list_my_workstations none s = refuse 401 unauthorized
  handle_list_my_workstations (some m) s = answer_list (store.list_workstations_by_member_id s m.id)

  unfoldable pub get_resolved : Member → S → Resolved → Reply Workstation × S
  get_resolved m s (api_error status why) = (refuse status why, s)
  get_resolved m s (resolved w) =
      answer_get s (store.ensure_workstation_running_by_id_for_member m.id w.id s)

  unfoldable pub handle_get_my_workstation : Option Member → Text → S → Reply Workstation × S
  unfolding get_resolved resolve_member_workstation
  handle_get_my_workstation none query s = (refuse 401 unauthorized, s)
  handle_get_my_workstation (some m) query s =
      get_resolved m s (resolve_member_workstation s (some m) (trim_space query))

  unfoldable pub handle_claim_my_workstation : Option Member → Body Text → S → Reply Workstation × S
  handle_claim_my_workstation none b s = (refuse 401 unauthorized, s)
  handle_claim_my_workstation (some m) b s =
      with_body [] b
        (λ worker_id. answer_claim s (store.claim_workstation m.id (trim_space worker_id) s))
        (refuse 400 invalid_json, s)

  unfoldable pub desire_resolved : Text → Member → S → Resolved → Reply Workstation × S
  desire_resolved desired m s (api_error status why) = (refuse status why, s)
  desire_resolved desired m s (resolved w) =
      answer_desired s (store.update_workstation_desired_power_state_by_id m.id w.id desired s)

  unfoldable pub handle_my_workstation_desired_state :
      Text → Option Member → Body Text → S → Reply Workstation × S
  unfolding desire_resolved resolve_member_workstation
  handle_my_workstation_desired_state desired none b s = (refuse 401 unauthorized, s)
  handle_my_workstation_desired_state desired (some m) b s =
      with_body [] b
        (λ i. desire_resolved desired m s (resolve_member_workstation s (some m) (trim_space i)))
        (refuse 400 invalid_json, s)

  unfoldable pub handle_start_my_workstation : Option Member → Body Text → S → Reply Workstation × S
  unfolding handle_my_workstation_desired_state
  handle_start_my_workstation = handle_my_workstation_desired_state (codes "running")

  unfoldable pub handle_stop_my_workstation : Option Member → Body Text → S → Reply Workstation × S
  unfolding handle_my_workstation_desired_state
  handle_stop_my_workstation = handle_my_workstation_desired_state (codes "stopped")

  unfoldable pub handle_release_my_workstation :
      Option Member → Body Text → S → Reply Workstation × S
  unfolding handle_my_workstation_desired_state
  handle_release_my_workstation = handle_my_workstation_desired_state (codes "deleted")
