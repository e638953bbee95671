-- ===== src/Model.antt =====
-- server/internal/model: the rows that the server keeps. A time is a number of nanoseconds.
use mini_control_public.Prelude.{ℕ, Option}
use mini_control_public.Text.{Text}

pub data WorkerStatus : Type 0 where
  active draining offline : WorkerStatus

pub record Worker : Type 0 where
  pub id : Text
  pub hostname : Text
  pub hardware_uuid : Text
  pub cpu_cores : ℕ
  pub memory_bytes : ℕ
  pub tart_version : Text
  pub worker_version : Text
  pub pool_size : ℕ
  pub base_image : Text
  pub status : WorkerStatus
  pub registered_at : ℕ
  pub last_heartbeat : Option ℕ
  pub auth_token_hash : Option Text
  pub auth_token_last_used_at : Option ℕ
  pub auth_token_revoked_at : Option ℕ

pub data PowerState : Type 0 where
  starting running stopping stopped deleting deleted error : PowerState

pub data DesiredPowerState : Type 0 where
  running stopped deleted : DesiredPowerState

pub record Workstation : Type 0 where
  pub id : Text
  pub member_id : Text
  pub worker_id : Text
  pub slot : ℕ
  pub vm_name : Text
  pub power_state : PowerState
  pub desired_power_state : DesiredPowerState
  pub ip_address : Text
  pub last_error : Text
  pub created_at : ℕ
  pub updated_at : ℕ

pub data MemberRole : Type 0 where
  member admin : MemberRole

pub record Member : Type 0 where
  pub id : Text
  pub access_sub : Text
  pub email : Text
  pub display_name : Text
  pub role : MemberRole
  pub created_at : ℕ
  pub updated_at : ℕ
  pub last_seen_at : ℕ
