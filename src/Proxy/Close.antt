-- ===== src/Proxy/Close.antt =====
-- What closing does to the map, and to the sessions that leave it.
use mini_control_public.Prelude.{
  ℕ, suc, ◌≡◌, refl, sym, subst, ap, ◌∙◌, inl, inr, Bool, true, false, List, [], ◌∷◌, none, map,
  length, find_if, keep_if, any_of, delete_where, if◌then◌else◌, arith, Bool-cases, Option-cases,
  All,
}
use mini_control_public.Text.{Text, text_eq, text_eq_iff, text_eq_refl}
use mini_control_public.Proxy.{
  SessionManager, ProxySession, named, close, close_all, ids_of, close_by_worker, close_by_vm, reap,
  is_stale,
}

-- The ID is on the list.
abbrev pub listed : List Text → Text → Bool
listed is i = any_of (λ j. text_eq i j) is

delete_where-missing :
    (p : ProxySession → Bool) (ss : List ProxySession)
    → find_if p ss ≡ none
    → delete_where p ss ≡ ss
unfolding delete_where
delete_where-missing p [] h = refl
delete_where-missing p (s ∷ ss) h = ground (arith, delete_where-missing p ss)

-- Closing takes exactly the session of that ID out of the map.
pub sessions-close :
    (i : Text) (sm : SessionManager) → (close i sm).sessions ≡ delete_where (named i) sm.sessions
sessions-close i sm = elim (Option-cases (find_if (named i) sm.sessions)) [
  | inl missing ↦
      unfold close in rw (missing, close) (sym (delete_where-missing (named i) sm.sessions missing))
  | inr (s, e) ↦ unfold close in rw (e, close) refl
]

delete_where_twice :
    (p q : ProxySession → Bool) (ss : List ProxySession)
    → delete_where p (delete_where q ss) ≡ delete_where (λ s. if q s then true else p s) ss
unfolding delete_where
delete_where_twice p q [] = refl
delete_where_twice p q (s ∷ ss) = ground (arith, delete_where_twice p q ss)

delete_where_nothing : (ss : List ProxySession) → delete_where (λ s. false) ss ≡ ss
unfolding delete_where
delete_where_nothing [] = refl
delete_where_nothing (s ∷ ss) = ap (◌∷◌ s) (delete_where_nothing ss)

pub sessions-close_all :
    (is : List Text) (sm : SessionManager)
    → (close_all is sm).sessions ≡ delete_where (λ s. listed is s.id) sm.sessions
unfolding close_all
sessions-close_all [] sm = sym (delete_where_nothing sm.sessions)
sessions-close_all (i ∷ is) sm =
    sessions-close_all is (close i sm)
    ∙ (ap (delete_where (λ s. listed is s.id)) (sessions-close i sm)
        ∙ delete_where_twice (λ s. listed is s.id) (named i) sm.sessions)

-- Session IDs are the keys of the map.
abbrev pub UniqueIds : List ProxySession → Type 0
UniqueIds [] = Unit {0}
UniqueIds (s ∷ ss) = All (λ x. text_eq x.id s.id ≡ false) ss × UniqueIds ss

abbrev selected : (ProxySession → Bool) → List ProxySession → List Text
selected p ss = map (λ s. s.id) (keep_if p ss)

not_selected :
    (p : ProxySession → Bool) (i : Text) (ss : List ProxySession)
    → All (λ x. text_eq x.id i ≡ false) ss
    → listed (selected p ss) i ≡ false
not_selected p i [] a = refl
not_selected p i (s ∷ ss) a =
    ground (arith, not_selected p i ss a.1, a.0, text_eq_iff s.id i, text_eq_iff i s.id)

listed-later :
    (p : ProxySession → Bool) (x : ProxySession) (L : List Text) (ss : List ProxySession)
    → All (λ s. text_eq s.id x.id ≡ false) ss
    → All (λ s. listed L s.id ≡ p s) ss
    → All (λ s. listed (x.id ∷ L) s.id ≡ p s) ss
listed-later p x L [] a h = tt
listed-later p x L (s ∷ ss) a h = (rw (a.0) h.0, listed-later p x L ss a.1 h.1)

-- Where IDs are unique, an ID was collected exactly if its session passed the test.
listed-selected :
    (p : ProxySession → Bool) (ss : List ProxySession)
    → UniqueIds ss
    → All (λ s. listed (selected p ss) s.id ≡ p s) ss
listed-selected p [] u = tt
listed-selected p (x ∷ ss) u = elim (Bool-cases (p x)) [
  | inl hit ↦
      let e : x.id ∷ selected p ss ≡ selected p (x ∷ ss) = rw hit refl in
      subst (λ L. All (λ s. listed L s.id ≡ p s) (x ∷ ss)) e
        (
          rw (text_eq_refl x.id) (sym hit),
          listed-later p x (selected p ss) ss u.0 (listed-selected p ss u.1),
        )
  | inr miss ↦
      let e : selected p ss ≡ selected p (x ∷ ss) = rw miss refl in
      subst (λ L. All (λ s. listed L s.id ≡ p s) (x ∷ ss)) e
        (not_selected p x.id ss u.0 ∙ sym miss, listed-selected p ss u.1)
]

delete_where-agree :
    (p q : ProxySession → Bool) (ss : List ProxySession)
    → All (λ s. p s ≡ q s) ss
    → delete_where p ss ≡ delete_where q ss
unfolding delete_where
delete_where-agree p q [] h = refl
delete_where-agree p q (s ∷ ss) h = ground (arith, h.0, delete_where-agree p q ss h.1)

-- Collecting the IDs of the sessions that pass a test and closing them one after the other takes
-- exactly those sessions out of the map.
pub sessions-close_selected :
    (p : ProxySession → Bool) (sm : SessionManager)
    → UniqueIds sm.sessions
    → (close_all (ids_of p sm) sm).sessions ≡ delete_where p sm.sessions
sessions-close_selected p sm u =
    sessions-close_all (ids_of p sm) sm
    ∙ delete_where-agree (λ s. listed (ids_of p sm) s.id) p sm.sessions
        (listed-selected p sm.sessions u)

length-map : (ss : List ProxySession) → length (map (λ s. s.id) ss) ≡ length ss
length-map [] = refl
length-map (s ∷ ss) = ap suc (length-map ss)

-- Where session IDs are unique, after `CloseByWorker` the map holds exactly the sessions of the other workers, as they were, and
-- the count is the number of sessions that the worker had.
pub close_by_worker_lem :
    (w : Text) (sm : SessionManager)
    → UniqueIds sm.sessions
    → ((close_by_worker w sm).0.sessions ≡ delete_where (λ s. text_eq s.worker_id w) sm.sessions)
      × ((close_by_worker w sm).1 ≡ length (keep_if (λ s. text_eq s.worker_id w) sm.sessions))
unfolding close_by_worker
close_by_worker_lem w sm u = (
  sessions-close_selected (λ s. text_eq s.worker_id w) sm u,
  length-map (keep_if (λ s. text_eq s.worker_id w) sm.sessions),
)

-- Where session IDs are unique, after `CloseByVM` the map holds exactly the sessions of the other
-- VMs, as they were, and the count is the number of sessions that the VM had.
pub close_by_vm_lem :
    (v : Text) (sm : SessionManager)
    → UniqueIds sm.sessions
    → ((close_by_vm v sm).0.sessions ≡ delete_where (λ s. text_eq s.vm_id v) sm.sessions)
      × ((close_by_vm v sm).1 ≡ length (keep_if (λ s. text_eq s.vm_id v) sm.sessions))
unfolding close_by_vm
close_by_vm_lem v sm u = (
  sessions-close_selected (λ s. text_eq s.vm_id v) sm u,
  length-map (keep_if (λ s. text_eq s.vm_id v) sm.sessions),
)

-- The reaper takes exactly the sessions out of the map that are pending and older than a minute.
pub reap_lem :
    (now : ℕ) (sm : SessionManager)
    → UniqueIds sm.sessions
    → (reap now sm).sessions ≡ delete_where (is_stale now) sm.sessions
unfolding reap
reap_lem now sm u = sessions-close_selected (is_stale now) sm u
