-- ===== src/Examples/MyWorkstations.antt =====
-- Requests of a member.
use mini_control_public.Prelude.{◌≡◌, ◌↔◌, All, some, true, false}
use mini_control_public.Text.{codes, trim_space}
use mini_control_public.Db.{Db}
use mini_control_public.Http.{panic, body}
use mini_control_public.MyWorkstations.{
  WorkstationStore, Resolved, resolve_member_workstation, handle_list_my_workstations,
  handle_get_my_workstation, handle_claim_my_workstation, handle_my_workstation_desired_state,
  handle_start_my_workstation, handle_stop_my_workstation, handle_release_my_workstation,
}
use mini_control_public.MyWorkstations.Owned.{Answers, IsWanted, handlers-IsWanted}
use mini_control_public.MyWorkstations.Filled.{
  db_store, outage_store, Unanswered, handlers-panic_iff,
}
use mini_control_public.Examples.Workstations.{ann, quiet}

abbrev store : WorkstationStore Db
store = db_store 50_000_000_000 50_000_000_000 (codes "e")

abbrev lost : WorkstationStore Db
lost = outage_store false true store

abbrev there : Resolved
there = resolve_member_workstation lost quiet (some ann) (trim_space (codes "d"))

handlers-IsWanted_example :
    Answers
      (All (λ w. w.member_id ≡ codes "m"))
      (handle_list_my_workstations store (some ann) quiet)
    × Answers
        (λ w. w.member_id ≡ codes "m")
        (handle_claim_my_workstation store (some ann) (body (codes " d ")) quiet).0
    × Answers
        (IsWanted (codes "m") (trim_space (codes " d ")))
        (handle_get_my_workstation store (some ann) (codes " d ") quiet).0
    × Answers
        (IsWanted (codes "m") (trim_space (codes " d ")))
        (handle_my_workstation_desired_state store
          (codes "stopped")
          (some ann)
          (body (codes " d "))
          quiet).0
handlers-IsWanted_example = handlers-IsWanted store ann (codes " d ") (codes "stopped") quiet

handlers-panic_iff_example :
    (((handle_get_my_workstation lost (some ann) (codes "d") quiet).0 ≡ panic)
      ↔ Unanswered true there)
    × (((handle_start_my_workstation lost (some ann) (body (codes "d")) quiet).0 ≡ panic)
        ↔ Unanswered true there)
    × (((handle_stop_my_workstation lost (some ann) (body (codes "d")) quiet).0 ≡ panic)
        ↔ Unanswered true there)
    × (((handle_release_my_workstation lost (some ann) (body (codes "d")) quiet).0 ≡ panic)
        ↔ Unanswered true there)
handlers-panic_iff_example =
    handlers-panic_iff 50_000_000_000 50_000_000_000 (codes "e") false true ann (codes "d") quiet
