-- ===== src/Db.antt =====
-- server/internal/db: the tables, the errors.
-- A transaction returns the tables that it commits; one that fails returns no tables, which is
-- its rollback.
use mini_control_public.Prelude.{
  Bool, true, false, ◌≡◌, refl, List, Option, none, some, if◌then◌else◌,
}
use mini_control_public.Model.{Worker, Workstation, Member}

pub record Db : Type 0 where
  pub members : List Member
  pub workers : List Worker
  pub workstations : List Workstation

pub data Error : Type 0 where
  not_found : Error
  workstation_being_deleted : Error
  no_active_workers : Error
  no_slots_available : Error
  target_worker_full : Error
  target_worker_unavailable : Error
  -- `workstation does not belong to worker`
  wrong_worker : Error
  -- `unsupported desired power state`
  unsupported : Error
  -- what Postgres refuses: a constraint, a label that is not of the enum
  failure : Error

pub data Result {ℓ} (Row : Type ℓ) : Type ℓ where
  err : Error → Result Row
  ok : Row → Result Row

infixl 5 ◌>>=◌ ◌>>◌
-- The first statement that fails ends the transaction.
abbrev pub ◌>>=◌ {ℓ κ} :
    {Row : Type ℓ} {Next : Type κ} → Result Row → (Row → Result Next) → Result Next
err cause >>= next = err cause
ok row >>= next = next row

abbrev pub guard : Bool → Error → Result (Unit {0})
guard passes cause = if passes then ok tt else err cause

abbrev pub ◌>>◌ {ℓ} : {Next : Type ℓ} → Result (Unit {0}) → Result Next → Result Next
err cause >> next = err cause
ok _ >> next = next

-- `QueryRow(…).Scan(…)`: `pgx.ErrNoRows` where no row comes back.
abbrev pub or_not_found {ℓ} : {A : Type ℓ} → Option A → Result A
or_not_found none = err not_found
or_not_found (some a) = ok a

-- What a caller finds in the tables after a transaction.
abbrev pub after {ℓ} : {A : Type ℓ} → Db → Result (A × Db) → Db
after db (ok (a, db')) = db'
after db (err e) = db

-- `IsNotFound`.
abbrev pub is_not_found : Error → Bool
is_not_found not_found = true
is_not_found e = false

-- `errors.Is(err, ErrWorkstationBeingDeleted)`.
abbrev pub is_being_deleted : Error → Bool
is_being_deleted workstation_being_deleted = true
is_being_deleted e = false

pub >>=-ok {ℓ κ} :
    {Row : Type ℓ} {Next : Type κ} (m : Result Row) (next : Row → Result Next) {b : Next}
    → (m >>= next) ≡ ok b
    → (a : Row) × (m ≡ ok a) × (next a ≡ ok b)
>>=-ok (err cause) next h = cc
>>=-ok (ok row) next h = (row, refl, h)
