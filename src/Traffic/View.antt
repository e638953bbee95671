-- ===== src/Traffic/View.antt =====
-- The table of workstations as a map from IDs to rows, which is how the program uses it.
use mini_control_public.Prelude.{
  updated, find_if-update_where, find_if-delete_where, find_if-delete_where_self, find_if-passes,
  update_where, delete_where, ◌≡◌, refl, inl, inr, Bool, true, false, List, [], ◌∷◌, Option, none,
  some, arith, ◌++◌, All, find_if, if◌then◌else◌, Bool-cases,
}
use mini_control_public.Text.{Text, text_eq, text_eq_iff, text_eq_refl}
use mini_control_public.Model.{Workstation}
use mini_control_public.Db.{Db}
use mini_control_public.Workstations.{has_id, is_of, set_rows}

abbrev pub view : Db → Text → Option Workstation
view db i = find_if (has_id i) db.workstations

-- The primary key.
abbrev pub UniqueIds : List Workstation → Type 0
UniqueIds [] = Unit {0}
UniqueIds (w ∷ ws) = All (λ v. text_eq v.id w.id ≡ false) ws × UniqueIds ws

absent :
    (i : Text) (p : Workstation → Bool) (ws : List Workstation) (v : Workstation)
    → All (λ w. text_eq w.id i ≡ false) ws
    → find_if p ws ≡ some v
    → text_eq v.id i ≡ false
absent i p [] v a e = cc e
absent i p (w ∷ ws) v a e = elim (Bool-cases (p w)) [
  | inl hit ↦ let q : some w ≡ some v = rw hit at e in ground (arith, a.0)
  | inr miss ↦ absent i p ws v a.1 (rw miss at e)
]

-- A row that any lookup finds is the row of its ID.
pub found-view :
    (p : Workstation → Bool) (ws : List Workstation) (v : Workstation)
    → UniqueIds ws
    → find_if p ws ≡ some v
    → find_if (has_id v.id) ws ≡ some v
found-view p [] v u e = cc e
found-view p (w ∷ ws) v u e = elim (Bool-cases (p w)) [
  | inl hit ↦ let q : some w ≡ some v = rw hit at e in ground (arith, text_eq_refl v.id)
  | inr miss ↦
      let e' : find_if p ws ≡ some v = rw miss at e in
      ground (
        arith,
        found-view p ws v u.1 e',
        absent w.id p ws v u.0 e',
        text_eq_iff w.id v.id,
        text_eq_iff v.id w.id,
      )
]

updated-missed :
    (q : Workstation → Bool) (f : Workstation → Workstation) (o : Option Workstation)
    → ((w : Workstation) → o ≡ some w → q w ≡ false)
    → updated q f o ≡ o
updated-missed q f none h = refl
updated-missed q f (some w) h = rw (h w refl)

-- An update that hits the row `v` and no row of another ID changes the map at `v` alone.
pub view-set_rows :
    (q : Workstation → Bool) (f : Workstation → Workstation) (db : Db) (v : Workstation) (i : Text)
    → find_if (has_id v.id) db.workstations ≡ some v
    → q v ≡ true
    → ((w : Workstation) → q w ≡ true → text_eq w.id v.id ≡ true)
    → ((w : Workstation) → (f w).id ≡ w.id)
    → view (set_rows q f db) i ≡ (if text_eq v.id i then some (f v) else view db i)
view-set_rows q f db v i e hit only keeps =
    rw (find_if-update_where (has_id i) q f db.workstations (λ w. rw (keeps w)))
      (elim (Bool-cases (text_eq v.id i)) [
        | inl same ↦ rw same (rw (← (text_eq_iff v.id i).0 same) (rw e (rw hit refl)))
        | inr other ↦ rw other (
            updated-missed q f (view db i)
              (λ w e2. missed (q w) other w refl (find_if-passes (has_id i) db.workstations w e2)))
      ])
  where
    missed :
        (b : Bool)
        → text_eq v.id i ≡ false
        → (w : Workstation) → q w ≡ b
        → text_eq w.id i ≡ true
        → q w ≡ false
    missed true other w h same =
        ground (arith, only w h, text_eq_iff w.id v.id, text_eq_iff w.id i, text_eq_iff v.id i)
    missed false other w h same = h

pub view-delete_where :
    (db : Db) (k i : Text)
    → find_if (has_id i) (delete_where (has_id k) db.workstations)
      ≡ (if text_eq k i then none else view db i)
view-delete_where db k i = elim (Bool-cases (text_eq k i)) [
  | inl same ↦
      rw (same, (text_eq_iff k i).0 same) (find_if-delete_where_self (has_id i) db.workstations)
  | inr other ↦ rw other (
      find_if-delete_where (has_id i) (has_id k) db.workstations
        (λ w h. ground (arith, text_eq_iff w.id k, text_eq_iff w.id i, text_eq_iff k i)))
]

module _ (f : Workstation → Workstation) (db : Db) (v : Workstation) (i : Text)
    (keeps : (w : Workstation) → (f w).id ≡ w.id) where
  -- `WHERE id = $1`, for the row that was read.
  pub view-set_by_id :
      find_if (has_id v.id) db.workstations ≡ some v
      → view (set_rows (has_id v.id) f db) i ≡ (if text_eq v.id i then some (f v) else view db i)
  view-set_by_id e = view-set_rows (has_id v.id) f db v i e (text_eq_refl v.id) (λ w h. h) keeps

  -- `WHERE member_id = $1 AND id = $2`.
  pub view-set_by_owner :
      (m j : Text)
      → find_if (has_id v.id) db.workstations ≡ some v
      → is_of m j v ≡ true
      → view (set_rows (is_of m j) f db) i ≡ (if text_eq v.id i then some (f v) else view db i)
  view-set_by_owner m j e hit =
      view-set_rows (is_of m j) f db v i e hit
        (λ w h. ground (arith, text_eq_iff w.id j, text_eq_iff v.id j, text_eq_iff w.id v.id)) keeps

-- Nothing changes: the row that was read is still there.
pub view-same :
    (db : Db) (v : Workstation) (i : Text)
    → find_if (has_id v.id) db.workstations ≡ some v
    → view db i ≡ (if text_eq v.id i then some v else view db i)
view-same db v i e = elim (Bool-cases (text_eq v.id i)) [
  | inl same ↦ rw same (rw (← (text_eq_iff v.id i).0 same) e)
  | inr other ↦ rw other refl
]

-- Statements that keep IDs keep them unique.
module _ (f : Workstation → Workstation) (keeps : (w : Workstation) → (f w).id ≡ w.id) where
  All-ids-update_where :
      (q : Workstation → Bool) (k : Text) (ws : List Workstation)
      → All (λ v. text_eq v.id k ≡ false) ws
      → All (λ v. text_eq v.id k ≡ false) (update_where q f ws)
  unfolding update_where
  All-ids-update_where q k [] h = tt
  All-ids-update_where q k (w ∷ ws) h =
      (ground (arith, keeps w, h.0), All-ids-update_where q k ws h.1)

  pub UniqueIds-update_where :
      (q : Workstation → Bool) (ws : List Workstation)
      → UniqueIds ws
      → UniqueIds (update_where q f ws)
  unfolding update_where
  UniqueIds-update_where q [] u = tt
  UniqueIds-update_where q (w ∷ ws) u = (head (q w), UniqueIds-update_where q ws u.1)
    where
      head :
          (b : Bool)
          → All (λ v. text_eq v.id (if b then f w else w).id ≡ false) (update_where q f ws)
      head true = rw (keeps w) (All-ids-update_where q w.id ws u.0)
      head false = All-ids-update_where q w.id ws u.0

All-ids-delete_where :
    (q : Workstation → Bool) (k : Text) (ws : List Workstation)
    → All (λ v. text_eq v.id k ≡ false) ws
    → All (λ v. text_eq v.id k ≡ false) (delete_where q ws)
unfolding delete_where
All-ids-delete_where q k [] h = tt
All-ids-delete_where q k (w ∷ ws) h = ground (arith, All-ids-delete_where q k ws h.1)

pub UniqueIds-delete_where :
    (q : Workstation → Bool) (ws : List Workstation) → UniqueIds ws → UniqueIds (delete_where q ws)
unfolding delete_where
UniqueIds-delete_where q [] u = tt
UniqueIds-delete_where q (w ∷ ws) u =
    ground (arith, All-ids-delete_where q w.id ws u.0, UniqueIds-delete_where q ws u.1)

All-snoc :
    (P : Workstation → Type 0) (ws : List Workstation) (n : Workstation)
    → All P ws
    → P n
    → All P (ws ++ n ∷ [])
All-snoc P [] n h p = (p, tt)
All-snoc P (w ∷ ws) n h p = (h.0, All-snoc P ws n h.1 p)

pub UniqueIds-snoc :
    (ws : List Workstation) (n : Workstation)
    → All (λ v. text_eq v.id n.id ≡ false) ws
    → UniqueIds ws
    → UniqueIds (ws ++ n ∷ [])
UniqueIds-snoc [] n h u = (tt, tt)
UniqueIds-snoc (w ∷ ws) n h u = (
  All-snoc _ ws n u.0 (ground (arith, h.0, text_eq_iff w.id n.id, text_eq_iff n.id w.id)),
  UniqueIds-snoc ws n h.1 u.1,
)
