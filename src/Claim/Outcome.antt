-- ===== src/Claim/Outcome.antt =====
-- Every answer of `ClaimWorkstation`.
use mini_control_public.Prelude.{
  ℕ, ◌-◌, ◌<◌, ◌≡◌, refl, ◌≢◌, inl, inr, Bool, true, false, List, [], ◌∷◌, ◌++◌, arith, All, Any,
  All-map, Any-map, any_of, All-order_by, Any-order_by, All-keep_if, Any-keep_if, subst, Any-elim,
  ◌∙◌, sym,
}
use mini_control_public.Text.{Text, text_eq, text_eq_iff}
use mini_control_public.Model.{Worker, Workstation}
use mini_control_public.Db.{
  Db, no_active_workers, target_worker_full, target_worker_unavailable, no_slots_available, Result,
  ok, err,
}
use mini_control_public.Slots.{
  Allocated, Candidate, Selected, SelectError, chosen, refused, list_allocated_slots,
  select_workstation_candidate,
}
use mini_control_public.Slots
use mini_control_public.Slots.Balance.{StandsFor, IsFull}
use mini_control_public.Slots.Preferred.{Selection, select-Selection}
use mini_control_public.Slots.Allocation.{is_held, occupied-list_allocated_slots}
use mini_control_public.Claim.{
  schedulable_heartbeat_window, is_schedulable, by_hostname, list_schedulable_workers,
  generate_workstation_vm_name, new_workstation, conflicts, is_insertable, insert_workstation,
  claim_selected, claim_from, claim_workstation,
}

-- No row has the ID or the VM name of the new workstation.
abbrev pub IsFresh : Text → List Workstation → Type 0
IsFresh uuid ws =
    All
      (λ w.
        (text_eq w.id uuid ≡ false)
        × (text_eq w.vm_name (generate_workstation_vm_name uuid) ≡ false))
      ws

abbrev pub has_member : Text → Db → Bool
has_member m db = any_of (λ x. text_eq x.id m) db.members

no_conflicts :
    (n : Workstation) (ws : List Workstation)
    → All (λ w. (text_eq w.id n.id ≡ false) × (text_eq w.vm_name n.vm_name ≡ false)) ws
    → is_held n.worker_id n.slot ws ≡ false
    → any_of (conflicts n) ws ≡ false
no_conflicts n [] f h = refl
no_conflicts n (w ∷ ws) f h = ground (arith, no_conflicts n ws f.1)

any_of-Any :
    {P : Worker → Type 0} (i : Text) (ws : List Worker)
    → ((w : Worker) → P w → w.id ≡ i)
    → Any P ws
    → any_of (λ w. text_eq w.id i) ws ≡ true
any_of-Any i [] f h = elim h [ ]
any_of-Any i (w ∷ ws) f (inl p) = ground (arith, f w p, text_eq_iff w.id i)
any_of-Any i (w ∷ ws) f (inr q) = ground (arith, any_of-Any i ws f q)

module _ (now server_now : ℕ) (uuid m preferred : Text) (db : Db) where
  abbrev pub cutoff : ℕ
  cutoff = server_now - schedulable_heartbeat_window

  -- Some workstation stands in every slot of the worker's pool.
  abbrev pub IsCrowded : Worker → Type 0
  IsCrowded k = (t : ℕ) → t < k.pool_size → is_held k.id t db.workstations ≡ true

  -- The answers, each with what holds of the tables.
  abbrev pub Claimed : Result ((Workstation × Bool) × Db) → Type 0
  Claimed (ok ((w, created), after)) =
      (created ≡ true)
      × (w ≡ new_workstation now uuid m w.worker_id w.slot)
      × (after ≡ record db { workstations = db.workstations ++ w ∷ [] })
      × (is_held w.worker_id w.slot db.workstations ≡ false)
      × Any (λ k. (is_schedulable cutoff k ≡ true) × (k.id ≡ w.worker_id) × (w.slot < k.pool_size))
          db.workers
  Claimed (err no_active_workers) = All (λ k. is_schedulable cutoff k ≢ true) db.workers
  Claimed (err no_slots_available) =
      (preferred ≡ []) × All (λ k. is_schedulable cutoff k ≡ true → IsCrowded k) db.workers
  Claimed (err target_worker_full) =
      Any (λ k. (is_schedulable cutoff k ≡ true) × (k.id ≡ preferred) × IsCrowded k) db.workers
  Claimed (err target_worker_unavailable) =
      All (λ k. is_schedulable cutoff k ≡ true → k.id ≢ preferred) db.workers
  Claimed (err e) = ⊥

  existing : Allocated
  existing = list_allocated_slots db.workstations

  IsCrowded-of : (k : Worker) → IsFull existing k → IsCrowded k
  unfolding existing
  IsCrowded-of k full t lt = sym (occupied-list_allocated_slots k.id t db.workstations) ∙ full t lt

  -- A property of a worker that is listed is one of a schedulable worker of the table.
  Any-listed :
      (P : Worker → Type 0)
      → Any P (list_schedulable_workers cutoff db)
      → Any (λ k. (is_schedulable cutoff k ≡ true) × P k) db.workers
  unfolding list_schedulable_workers
  Any-listed P h = Any-keep_if P (is_schedulable cutoff) db.workers (Any-order_by P by_hostname _ h)

  All-listed :
      (P : Worker → Type 0)
      → All P (list_schedulable_workers cutoff db)
      → All (λ k. is_schedulable cutoff k ≡ true → P k) db.workers
  unfolding list_schedulable_workers
  All-listed P h = All-keep_if P (is_schedulable cutoff) db.workers (All-order_by P by_hostname _ h)

  module _ (fresh : IsFresh uuid db.workstations) (known : has_member m db ≡ true) where
    Claimed-chosen :
        (c : Candidate)
        → Any (StandsFor existing c) (list_schedulable_workers cutoff db)
        → Claimed (claim_selected now uuid m (chosen c) db)
    unfolding claim_selected existing
    Claimed-chosen c any = rw (insertable, insert_workstation) (refl, refl, refl, free, listed)
      where
        free : is_held c.worker_id c.slot db.workstations ≡ false
        free =
            Any-elim (StandsFor existing c)
              (λ k h.
                subst (λ i. is_held i c.slot db.workstations ≡ false) h.0
                  (sym (occupied-list_allocated_slots k.id c.slot db.workstations) ∙ h.1.1))
              (list_schedulable_workers cutoff db) any

        listed :
            Any
              (λ k.
                (is_schedulable cutoff k ≡ true) × (k.id ≡ c.worker_id) × (c.slot < k.pool_size))
              db.workers
        listed = Any-map (λ k h. (h.0, h.1.0, h.1.1.0)) db.workers (Any-listed _ any)

        insertable : is_insertable db (new_workstation now uuid m c.worker_id c.slot) ≡ true
        insertable = ground (
          arith,
          known,
          any_of-Any c.worker_id db.workers (λ k h. h.1) listed,
          no_conflicts (new_workstation now uuid m c.worker_id c.slot) db.workstations fresh free,
        )

    Claimed-selected :
        (r : Selected)
        → Selection existing preferred (list_schedulable_workers cutoff db) r
        → Claimed (claim_selected now uuid m r db)
    unfolding claim_selected
    Claimed-selected (chosen c) h = unfold claim_selected in Claimed-chosen c h
    Claimed-selected (refused Slots.no_slots_available) h =
        (h.0, All-map (λ k f s. IsCrowded-of k (f s)) db.workers (All-listed _ h.1))
    Claimed-selected (refused Slots.target_worker_full) h =
        Any-map (λ k f. (f.0, f.1.0, IsCrowded-of k f.1.1)) db.workers (Any-listed _ h)
    Claimed-selected (refused Slots.target_worker_unavailable) h = All-listed _ h

    Claimed-from :
        (ws : List Worker)
        → list_schedulable_workers cutoff db ≡ ws
        → Claimed (claim_from now uuid m preferred ws db)
    unfolding claim_from existing
    Claimed-from [] e =
        let none_listed : All (λ k. ⊥) (list_schedulable_workers cutoff db) = rw e tt in
        All-listed (λ k. ⊥) none_listed
    Claimed-from (w ∷ ws) e =
        Claimed-selected (select_workstation_candidate (w ∷ ws) existing preferred)
          (rw e (select-Selection existing preferred (w ∷ ws)))

    -- For a member that exists and a new ID such that no row has it or the VM name made of it, a
    -- claim answers with one of these: a new row in a slot that was free, on a schedulable worker
    -- whose pool has that slot, added to the table and nothing else changed; or the refusal that the
    -- workers justify. No constraint of the table is ever violated.
    pub claim-Claimed : Claimed (claim_workstation now server_now uuid m preferred db)
    unfolding claim_workstation
    claim-Claimed =
        unfold list_schedulable_workers in Claimed-from (list_schedulable_workers cutoff db) refl
