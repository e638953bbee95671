-- ===== src/Examples/Workers.antt =====
-- A Mac that gets a name and registers, and its heartbeats.
use mini_control_public.Prelude.{◌≡◌, refl, true, [], ◌∷◌, some, All}
use mini_control_public.Text.{codes, text_eq, text_eq_iff}
use mini_control_public.Strings.{cut_prefix}
use mini_control_public.Decimal.{digits, decimal}
use mini_control_public.Model.{PowerState, DesiredPowerState}
use mini_control_public.Db.{Db, ok}
use mini_control_public.Http.{body}
use mini_control_public.Proxy.{new_session_manager}
use mini_control_public.WorkerTokens.{Issuing}
use mini_control_public.Hostnames.{assign_hostname, reserve, reserved, max_number, mac_number}
use mini_control_public.Hostnames.Fresh.{Fits, assign_iff}
use mini_control_public.Workers.{
  WorkerConfig, WorkerRegisterRequest, State, should_issue_worker_token, handle_worker_heartbeat,
}
use mini_control_public.Workers.Registration.{Decision, should_issue-Decision}
use mini_control_public.Workers.Reports.{heartbeat-foreign}
use mini_control_public.Traffic.View.{view}
use mini_control_public.Examples.Tokens.{farm, plain_hash}
use mini_control_public.Examples.Workstations.{quiet, desk}

abbrev settings : WorkerConfig
settings = record { pool_size = 2; base_image = codes "base"; enrollment_token = codes "letmein" }

abbrev request : WorkerRegisterRequest
request = record {
  hostname = codes "mac-2";
  hardware_uuid = codes "v";
  cpu_cores = 10;
  memory_bytes = 34_359_738_368;
  tart_version = codes "2";
  worker_version = codes "1";
  worker_token = codes "letmein";
}

abbrev start : State
start = (farm, new_session_manager)

should_issue-Decision_example :
    Decision plain_hash
      (codes "letmein")
      (codes "v")
      (codes "letmein")
      farm
      (should_issue_worker_token plain_hash (codes "letmein") (codes "v") (codes "letmein") farm)
should_issue-Decision_example =
    should_issue-Decision plain_hash (codes "letmein") (codes "v") (codes "letmein") farm

abbrev lucky : Issuing
lucky = record { token_bytes = some (7 ∷ []); executes = true }

abbrev named_farm : Db
named_farm = reserve (reserved plain_hash 50 (codes "mac-2") (codes "v")) farm

names_second : assign_hostname plain_hash 50 (codes "v") farm ≡ ok (codes "mac-2", named_farm)
unfolding assign_hostname text_eq max_number mac_number cut_prefix digits decimal
names_second = refl

assign_iff_example : All (λ w. Fits (mac_number w.hostname)) farm.workers
unfolding text_eq
assign_iff_example = (assign_iff plain_hash 50 (codes "v") farm refl).0 (_, names_second)

heartbeat-foreign_example :
    view
      (handle_worker_heartbeat 50
        (some (codes "a"))
        (codes "a")
        (body (
          record {
            workstation_id = codes "d";
            power_state = codes "deleted";
            ip_address = [];
            last_error = [];
          }
          ∷ []))
        quiet).1
      (codes "d")
    ≡ some (desk PowerState.stopped DesiredPowerState.stopped)
unfolding text_eq
heartbeat-foreign_example =
    heartbeat-foreign 50 (codes "a") (codes "a") (codes "d") _ quiet _ (tt, tt) refl
      (λ e. let k : text_eq (codes "b") (codes "a") ≡ true = (text_eq_iff _ _).1 e in cc k)
