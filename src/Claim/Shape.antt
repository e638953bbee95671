-- ===== src/Claim/Shape.antt =====
-- A claim changes nothing, or adds one row at the end.
use mini_control_public.Prelude.{
  ℕ, ◌≡◌, refl, ◌⊎◌, inl, inr, List, [], ◌∷◌, ◌++◌, arith, All, any_of, Bool-cases, Bool, false,
}
use mini_control_public.Text.{Text, text_eq}
use mini_control_public.Model.{Worker, Workstation}
use mini_control_public.Db.{Db, after, ok}
use mini_control_public.Slots.{
  Selected, chosen, refused, select_workstation_candidate, list_allocated_slots,
}
use mini_control_public.Claim.{
  conflicts, is_insertable, insert_workstation, new_workstation, claim_selected, claim_from,
  claim_workstation,
}

abbrev pub Added : Text → Db → Db → Type 0
Added uuid db db' =
    (db' ≡ db)
    ⊎ ((n : Workstation) × (n.id ≡ uuid)
        × All (λ v. text_eq v.id n.id ≡ false) db.workstations
        × (db' ≡ record db { workstations = db.workstations ++ n ∷ [] }))

-- The primary key refuses an ID that is there.
apart :
    (n : Workstation) (ws : List Workstation)
    → any_of (conflicts n) ws ≡ false
    → All (λ v. text_eq v.id n.id ≡ false) ws
apart n [] h = tt
apart n (w ∷ ws) h = (ground arith, apart n ws (ground arith))

module _ (now : ℕ) (uuid m : Text) (db : Db) where
  Added-selected : (r : Selected) → Added uuid db (after db (claim_selected now uuid m r db))
  unfolding claim_selected
  Added-selected (refused e) = inl refl
  Added-selected (chosen c) =
      let n = new_workstation now uuid m c.worker_id c.slot in
      elim (Bool-cases (is_insertable db n)) [
        | inl fits ↦
            rw (fits, insert_workstation)
              (inr (n, refl, apart n db.workstations (ground arith), refl))
        | inr clash ↦ rw (clash, insert_workstation) (inl refl)
      ]

  Added-from :
      (preferred : Text) (ws : List Worker)
      → Added uuid db (after db (claim_from now uuid m preferred ws db))
  unfolding claim_from
  Added-from preferred [] = inl refl
  Added-from preferred (w ∷ ws) =
      Added-selected
        (select_workstation_candidate (w ∷ ws) (list_allocated_slots db.workstations) preferred)

  pub claim-Added :
      (server_now : ℕ) (preferred : Text)
      → Added uuid db (after db (claim_workstation now server_now uuid m preferred db))
  unfolding claim_workstation
  claim-Added server_now preferred = Added-from preferred _

  -- The row that a claim answers with belongs to the member.
  Own-selected :
      (r : Selected) (w : Workstation) (created : Bool) (db' : Db)
      → claim_selected now uuid m r db ≡ ok ((w, created), db')
      → w.member_id ≡ m
  unfolding claim_selected insert_workstation
  Own-selected (refused e) w created db' h = cc h
  Own-selected (chosen c) w created db' h = ground (arith, h)

  Own-from :
      (preferred : Text) (ws : List Worker) (w : Workstation) (created : Bool) (db' : Db)
      → claim_from now uuid m preferred ws db ≡ ok ((w, created), db')
      → w.member_id ≡ m
  unfolding claim_from
  Own-from preferred [] w created db' h = cc h
  Own-from preferred (x ∷ xs) w created db' h = Own-selected _ w created db' h

  pub claim-Own :
      (server_now : ℕ) (preferred : Text) (w : Workstation) (created : Bool) (db' : Db)
      → claim_workstation now server_now uuid m preferred db ≡ ok ((w, created), db')
      → w.member_id ≡ m
  unfolding claim_workstation
  claim-Own server_now preferred w created db' h = Own-from preferred _ w created db' h
