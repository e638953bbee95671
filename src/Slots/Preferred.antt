-- ===== src/Slots/Preferred.antt =====
-- `selectWorkstationCandidate` where the member names a worker.
use mini_control_public.Prelude.{
  ◌≡◌, refl, ◌≢◌, inl, inr, false, List, [], ◌∷◌, All, Any, Bool-cases, Option-cases,
}
use mini_control_public.Text.{Text, text_eq, text_eq_iff}
use mini_control_public.Model.{Worker}
use mini_control_public.Slots.{
  Allocated, Selected, chosen, refused, no_slots_available, target_worker_full,
  target_worker_unavailable, candidate, preferred_candidate, select_workstation_candidate,
}
use mini_control_public.Slots.Balance.{
  select-balanced, select-All-IsFull, StandsFor, IsFull, candidate-StandsFor, candidate-IsFull,
}

-- What each answer says of the workers and of the one that was asked for.
abbrev pub Answered : Allocated → Text → List Worker → Selected → Type 0
Answered existing preferred ws (chosen c) =
    (c.worker_id ≡ preferred) × Any (StandsFor existing c) ws
Answered existing preferred ws (refused target_worker_full) =
    Any (λ w. (w.id ≡ preferred) × IsFull existing w) ws
Answered existing preferred ws (refused target_worker_unavailable) = All (λ w. w.id ≢ preferred) ws
Answered existing preferred ws (refused no_slots_available) = ⊥

Answered-later :
    (existing : Allocated) (preferred : Text) (w : Worker) (ws : List Worker) (r : Selected)
    → text_eq w.id preferred ≡ false
    → Answered existing preferred ws r
    → Answered existing preferred (w ∷ ws) r
Answered-later existing preferred w ws (chosen c) ne h = (h.0, inr h.1)
Answered-later existing preferred w ws (refused target_worker_full) ne h = inr h
Answered-later existing preferred w ws (refused target_worker_unavailable) ne h =
    (λ e. cc (ne, (text_eq_iff w.id preferred).1 e), h)
Answered-later existing preferred w ws (refused no_slots_available) ne h = h

preferred_candidate-Answered :
    (existing : Allocated) (preferred : Text) (ws : List Worker)
    → Answered existing preferred ws (preferred_candidate existing preferred ws)
unfolding preferred_candidate
preferred_candidate-Answered existing preferred [] = tt
preferred_candidate-Answered existing preferred (w ∷ ws) =
    elim (Bool-cases (text_eq w.id preferred)) [
      | inr ne ↦ rw ne (
          Answered-later existing preferred w ws _ ne
            (preferred_candidate-Answered existing preferred ws))
      | inl eq ↦ elim (Option-cases (candidate existing w)) [
        | inl full ↦
            rw (eq, full)
              (inl ((text_eq_iff w.id preferred).0 eq, candidate-IsFull existing w full))
        | inr (c, found) ↦
            let h = candidate-StandsFor existing w c found in
            rw (eq, found) (cc ((text_eq_iff w.id preferred).0 eq, h.0), inl h)
      ]
    ]

-- With a preferred worker the scheduler answers for that worker alone: the least free slot of a
-- worker of the list with that ID; that it is full, only if a worker of the list with that ID is;
-- that it is unavailable, only if none of the list has that ID; and never that no slots are left.
pub select-preferred :
    (workers : List Worker) (existing : Allocated) (preferred : Text)
    → preferred ≢ []
    → Answered existing preferred workers (select_workstation_candidate workers existing preferred)
unfolding select_workstation_candidate
select-preferred workers existing [] h = absurd (h refl)
select-preferred workers existing (c ∷ cs) h =
    preferred_candidate-Answered existing (c ∷ cs) workers

-- Both ways to ask, in one statement.
abbrev pub Selection : Allocated → Text → List Worker → Selected → Type 0
Selection existing preferred ws (chosen c) = Any (StandsFor existing c) ws
Selection existing preferred ws (refused no_slots_available) =
    (preferred ≡ []) × All (IsFull existing) ws
Selection existing preferred ws (refused target_worker_full) =
    Any (λ w. (w.id ≡ preferred) × IsFull existing w) ws
Selection existing preferred ws (refused target_worker_unavailable) = All (λ w. w.id ≢ preferred) ws

Selection-balanced :
    (existing : Allocated) (ws : List Worker) (r : Selected)
    → select_workstation_candidate ws existing [] ≡ r
    → Selection existing [] ws r
Selection-balanced existing ws (chosen c) e = (select-balanced ws existing c e).0
Selection-balanced existing ws (refused no_slots_available) e =
    (refl, (select-All-IsFull ws existing _ e).1)
Selection-balanced existing ws (refused target_worker_full) e =
    cc ((select-All-IsFull ws existing _ e).0)
Selection-balanced existing ws (refused target_worker_unavailable) e =
    cc ((select-All-IsFull ws existing _ e).0)

Selection-Answered :
    (existing : Allocated) (preferred : Text) (ws : List Worker) (r : Selected)
    → Answered existing preferred ws r
    → Selection existing preferred ws r
Selection-Answered existing preferred ws (chosen c) h = h.1
Selection-Answered existing preferred ws (refused no_slots_available) h = absurd h
Selection-Answered existing preferred ws (refused target_worker_full) h = h
Selection-Answered existing preferred ws (refused target_worker_unavailable) h = h

pub select-Selection :
    (existing : Allocated) (preferred : Text) (ws : List Worker)
    → Selection existing preferred ws (select_workstation_candidate ws existing preferred)
select-Selection existing [] ws = Selection-balanced existing ws _ refl
select-Selection existing (c ∷ cs) ws =
    Selection-Answered existing (c ∷ cs) ws _ (select-preferred ws existing (c ∷ cs) (λ e. cc))
