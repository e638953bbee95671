-- ===== src/Examples/ProxySessions.antt =====
-- Sessions that a member opens.
use mini_control_public.Prelude.{[], ◌∷◌, some}
use mini_control_public.Text.{codes}
use mini_control_public.Model.{PowerState, DesiredPowerState}
use mini_control_public.Db.{Db}
use mini_control_public.Access.{pos}
use mini_control_public.Http.{body}
use mini_control_public.Proxy.{new_session_manager}
use mini_control_public.MyWorkstations.{WorkstationStore}
use mini_control_public.MyWorkstations.Filled.{db_store}
use mini_control_public.ProxySessions.{CreateRequest, handle_create_proxy_session}
use mini_control_public.ProxySessions.Opened.{MayReach, Opened, create-Opened}
use mini_control_public.Examples.Workstations.{ann, office}

abbrev pub busy : Db
busy = office PowerState.running DesiredPowerState.running

abbrev pub busy_store : WorkstationStore Db
busy_store = db_store 50_000_000_000 50_000_000_000 (codes "e")

abbrev to_desk : CreateRequest
to_desk = record { target = []; vm_id = codes " d "; worker_id = []; port = pos 5900 }

create-Opened_example :
    Opened (MayReach busy_store (some ann) busy [] to_desk) new_session_manager (
      handle_create_proxy_session busy_store
        (codes "s")
        (7 ∷ [])
        50
        (some ann)
        (body to_desk)
        busy
        []
        new_session_manager)
create-Opened_example =
    create-Opened busy_store (some ann) busy [] (codes "s") (7 ∷ []) 50 to_desk new_session_manager
