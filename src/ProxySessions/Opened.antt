-- ===== src/ProxySessions/Opened.antt =====
-- The sessions that requests open.
use mini_control_public.Prelude.{
  ℕ, zero, suc, ◌≡◌, ◌≢◌, ap, refl, true, false, List, [], ◌∷◌, Option, none, some, Bool-cases, inl,
  inr,
}
use mini_control_public.Text.{Text, codes, text_eq, text_eq_iff, trim_space}
use mini_control_public.Model.{Workstation, Member, PowerState}
use mini_control_public.Db.{Db, is_not_found, Result, ok, err}
use mini_control_public.Access.{ℤ, pos, negsuc}
use mini_control_public.Http.{reply, refuse, panic, body, is_empty}
use mini_control_public.Workstations.{get_workstation_by_id}
use mini_control_public.Vms.{Vm, get_vm}
use mini_control_public.Proxy.{
  SessionManager, ProxySession, ProxyTarget, vm, host, allowed_port, new_session, create, pending,
}
use mini_control_public.MyWorkstations.{WorkstationStore, Resolved, resolved, api_error}
use mini_control_public.MyWorkstations.Owned.{IsHeld, resolve-IsHeld}
use mini_control_public.ProxySessions.{
  CreateRequest, Target, to_target, target_error, is_running, is_available, by_vm, by_workstation,
  or_vm, resolve_proxy_target, Opening, open_session, member_target, target_of, at_port,
  handle_create_proxy_session,
}

pub is_running-running : (p : PowerState) → is_running p ≡ true → p ≡ PowerState.running
is_running-running PowerState.running e = refl
is_running-running p e = cc e

-- A target that a member may have: a running workstation that the database holds for them.
abbrev pub MemberTarget : (Workstation → Type 0) → ProxyTarget → Text → Text → Type 0
MemberTarget held target worker_id vm_id =
    (target ≡ vm)
    × ((w : Workstation) × held w
        × (w.power_state ≡ PowerState.running)
        × (w.id ≡ vm_id)
        × (w.worker_id ≡ worker_id))

-- A target that an administrator may have: a worker itself, or a machine that is up, on its worker.
pub data AdminTarget (db : Db) (vms : List Vm) (req : CreateRequest)
    : ProxyTarget → Text → Text → Type 0 where
  at_host :
      req.target ≡ codes "host" → req.worker_id ≢ [] → AdminTarget db vms req host req.worker_id []
  at_workstation :
      (w : Workstation)
      → get_workstation_by_id db req.vm_id ≡ ok w
      → w.power_state ≡ PowerState.running
      → AdminTarget db vms req vm w.worker_id w.id
  at_vm :
      (v : Vm)
      → get_vm req.vm_id vms ≡ ok v
      → is_available v.state ≡ true
      → AdminTarget db vms req vm v.worker_id req.vm_id

abbrev pub MayReach :
    WorkstationStore Db
    → Option Member
    → Db
    → List Vm
    → CreateRequest
    → ProxyTarget
    → Text
    → Text
    → Type 0
MayReach store none db vms req target worker_id vm_id =
    AdminTarget db vms req target worker_id vm_id
MayReach store (some m) db vms req target worker_id vm_id =
    MemberTarget (IsHeld store db m.id (trim_space req.vm_id)) target worker_id vm_id

-- The target of a request is one that may be reached, if it has one.
abbrev Allowed : (ProxyTarget → Text → Text → Type 0) → Target → Type 0
Allowed P (to_target target worker_id vm_id) = P target worker_id vm_id
Allowed P (target_error status why) = Unit {0}

module _ (db : Db) (vms : List Vm) (req : CreateRequest) where
  by_vm-Allowed :
      (r : Result Vm)
      → get_vm req.vm_id vms ≡ r
      → Allowed (AdminTarget db vms req) (by_vm req.vm_id r)
  by_vm-Allowed (err e) h = tt
  by_vm-Allowed (ok v) h = elim (Bool-cases (is_available v.state)) [
    | inl up ↦ rw up (at_vm v h up)
    | inr down ↦ rw down tt
  ]

  by_workstation-Allowed :
      (r : Result Workstation)
      → get_workstation_by_id db req.vm_id ≡ r
      → Allowed (AdminTarget db vms req) (by_workstation vms req.vm_id r)
  by_workstation-Allowed (ok w) h = elim (Bool-cases (is_running w.power_state)) [
    | inl up ↦ rw up (at_workstation w h (is_running-running w.power_state up))
    | inr down ↦ rw down tt
  ]
  by_workstation-Allowed (err e) h = elim (Bool-cases (is_not_found e)) [
    | inl missing ↦ rw missing (by_vm-Allowed _ refl)
    | inr other ↦ rw other tt
  ]

  is_empty-full : (t : Text) → is_empty t ≡ false → t ≢ []
  is_empty-full t e n = cc (ap is_empty n, e)

  or_vm-host : (t : Text) → text_eq (or_vm t) (codes "host") ≡ true → t ≡ codes "host"
  or_vm-host [] e = cc ((text_eq_iff (codes "vm") (codes "host")).0 e)
  or_vm-host (c ∷ cs) e = (text_eq_iff (c ∷ cs) (codes "host")).0 e

  resolve-Allowed :
      Allowed
        (AdminTarget db vms req)
        (resolve_proxy_target db vms req.target req.vm_id req.worker_id)
  unfolding resolve_proxy_target
  resolve-Allowed = elim (Bool-cases (text_eq (or_vm req.target) (codes "host"))) [
    | inl to_host ↦ elim (Bool-cases (is_empty req.worker_id)) [
      | inl bad ↦ rw (to_host, bad) tt
      | inr named ↦
          rw (to_host, named)
            (at_host (or_vm-host req.target to_host) (is_empty-full req.worker_id named))
    ]
    | inr other ↦ elim (Bool-cases (text_eq (or_vm req.target) (codes "vm"))) [
      | inr odd ↦ rw (other, odd) tt
      | inl to_vm ↦ elim (Bool-cases (is_empty req.vm_id)) [
        | inl bad ↦ rw (other, to_vm, bad) tt
        | inr named ↦ rw (other, to_vm, named) (by_workstation-Allowed _ refl)
      ]
    ]
  ]

-- One pending session is added to the map, for that port and target, and the reply names it; a
-- request that is refused changes nothing.
abbrev pub Opened : (ProxyTarget → Text → Text → Type 0) → SessionManager → Opening → Type 0
Opened P sm (reply status p, sm') =
    (status ≡ 201)
    × ((s : ProxySession) × (sm' ≡ create s sm)
        × (p ≡ (s.id, s.token))
        × (s.state ≡ pending)
        × (allowed_port s.port ≡ true)
        × P s.target s.worker_id s.vm_id)
Opened P sm (refuse status why, sm') = sm' ≡ sm
Opened P sm (panic, sm') = ⊥

open_session-Opened :
    (P : ProxyTarget → Text → Text → Type 0) (uuid : Text) (token_bytes : List ℕ) (now port : ℕ)
    (sm : SessionManager) (t : Target)
    → allowed_port port ≡ true
    → Allowed P t
    → Opened P sm (open_session uuid token_bytes now port sm t)
open_session-Opened P uuid token_bytes now port sm (target_error status why) open_port h = refl
open_session-Opened P uuid token_bytes now port sm (to_target target worker_id vm_id) open_port h =
    (
      refl,
      (
        new_session target vm_id worker_id port uuid token_bytes now,
        refl,
        refl,
        unfold new_session in refl,
        unfold new_session in open_port,
        unfold new_session in h,
      ),
    )

module _ (store : WorkstationStore Db) (m : Option Member) (db : Db) (vms : List Vm) where
  member_target-Allowed :
      (held : Workstation → Type 0) (r : Resolved)
      → ((w : Workstation) → r ≡ resolved w → held w)
      → Allowed (MemberTarget held) (member_target r)
  member_target-Allowed held (api_error status why) h = tt
  member_target-Allowed held (resolved w) h = elim (Bool-cases (is_running w.power_state)) [
    | inl up ↦ rw up (refl, (w, h w refl, is_running-running w.power_state up, refl, refl))
    | inr down ↦ rw down tt
  ]

  target_of-Allowed :
      (o : Option Member) (req : CreateRequest)
      → Allowed (MayReach store o db vms req) (target_of store o req db vms)
  unfolding target_of
  target_of-Allowed none req = resolve-Allowed db vms req
  target_of-Allowed (some x) req = elim (Bool-cases (text_eq req.target (codes "host"))) [
    | inl to_host ↦ rw to_host tt
    | inr other ↦ rw other (
        member_target-Allowed (IsHeld store db x.id (trim_space req.vm_id)) _
          (λ w e. resolve-IsHeld store db x (trim_space req.vm_id) w e))
  ]

  at_port-Opened :
      (uuid : Text) (token_bytes : List ℕ) (now : ℕ) (req : CreateRequest) (sm : SessionManager)
      (port : ℤ)
      → Opened
          (MayReach store m db vms req)
          sm
          (at_port store uuid token_bytes now m req db vms sm port)
  at_port-Opened uuid token_bytes now req sm (negsuc n) = refl
  at_port-Opened uuid token_bytes now req sm (pos zero) = refl
  at_port-Opened uuid token_bytes now req sm (pos (suc n)) =
      elim (Bool-cases (allowed_port (suc n))) [
        | inl open_port ↦ rw open_port (
            open_session-Opened (MayReach store m db vms req) uuid token_bytes now (suc n) sm _
              open_port (target_of-Allowed m req))
        | inr shut ↦ rw shut refl
      ]

  -- A session that is opened is new and pending, on an allowed port. For a member it leads to a
  -- running workstation that the database holds for them, the one that is named, or their only one; for an administrator to a worker
  -- itself, to a running workstation, or to a VM that is up. A request that is refused changes
  -- nothing.
  pub create-Opened :
      (uuid : Text) (token_bytes : List ℕ) (now : ℕ) (req : CreateRequest) (sm : SessionManager)
      → Opened
          (MayReach store m db vms req)
          sm
          (handle_create_proxy_session store uuid token_bytes now m (body req) db vms sm)
  unfolding handle_create_proxy_session
  create-Opened uuid token_bytes now req sm = at_port-Opened uuid token_bytes now req sm req.port
