-- ===== src/Proxy/Invariant.antt =====
-- What holds of every session between two calls of the manager.
use mini_control_public.Prelude.{
  ℕ, ◌≡◌, ◌≢◌, ◌==◌, All-map, All-update_where, All-delete_where, refl, inl, inr, Bool, true, false,
  List, [], ◌∷◌, ◌++◌, Option, none, some, find_if, any_of, update_where, delete_where,
  if◌then◌else◌, arith, Bool-cases, Option-cases, All,
}
use mini_control_public.Text.{Text, text_eq}
use mini_control_public.Proxy.{
  SessionManager, SessionState, active, closed, ProxyTarget, ProxySession, named, close, close_all,
  both_set, store_conn, set_conn, Role, create, new_session, conns_of,
}
use mini_control_public.Proxy.Close.{UniqueIds}

abbrev is_active : SessionState → Bool
is_active active = true
is_active s = false

-- A session in the map is active exactly if both connections are there, which is when `ready` is
-- closed; it is not closed, and `done` is open.
abbrev pub IsSound : ProxySession → Type 0
IsSound s =
    (s.state ≢ closed)
    × (is_active s.state ≡ both_set s)
    × (s.ready ≡ both_set s)
    × (s.done ≡ false)

-- A session that left the map is closed, `done` is closed, and its connections are shut.
abbrev pub IsOver : List ℕ → ProxySession → Type 0
IsOver shut s =
    (s.state ≡ closed)
    × (s.done ≡ true)
    × All (λ c. any_of (λ d. d == c) shut ≡ true) (conns_of s.client_conn)
    × All (λ c. any_of (λ d. d == c) shut ≡ true) (conns_of s.worker_conn)

pub record Inv (sm : SessionManager) : Type 0 where
  pub sound : All IsSound sm.sessions
  pub keyed : UniqueIds sm.sessions
  pub over : All (IsOver sm.shut) sm.gone

store_conn-IsSound : (r : Role) (c : ℕ) (s : ProxySession) → IsSound s → IsSound (store_conn r c s)
unfolding store_conn
store_conn-IsSound Role.client c s h = ground arith
store_conn-IsSound Role.worker c s h = ground arith
store_conn-IsSound Role.other c s h = ground arith

pub store_conn-id : (r : Role) (c : ℕ) (s : ProxySession) → (store_conn r c s).id ≡ s.id
unfolding store_conn
store_conn-id Role.client c s = ground arith
store_conn-id Role.worker c s = ground arith
store_conn-id Role.other c s = ground arith

UniqueIds-update_where :
    (p : ProxySession → Bool) (f : ProxySession → ProxySession) (ss : List ProxySession)
    → ((s : ProxySession) → (f s).id ≡ s.id)
    → UniqueIds ss
    → UniqueIds (update_where p f ss)
unfolding update_where
UniqueIds-update_where p f [] keeps u = tt
UniqueIds-update_where p f (s ∷ ss) keeps u = (head (p s), UniqueIds-update_where p f ss keeps u.1)
  where
    below : All (λ x. text_eq x.id s.id ≡ false) (update_where p f ss)
    below = All-update_where _ p f ss (λ x h. rw (keeps x) h) u.0

    head :
        (b : Bool) → All (λ x. text_eq x.id (if b then f s else s).id ≡ false) (update_where p f ss)
    head true = rw (keeps s) below
    head false = below

UniqueIds-delete_where :
    (p : ProxySession → Bool) (ss : List ProxySession)
    → UniqueIds ss
    → UniqueIds (delete_where p ss)
unfolding delete_where
UniqueIds-delete_where p [] u = tt
UniqueIds-delete_where p (s ∷ ss) u = ground (
  arith,
  All-delete_where (λ x. text_eq x.id s.id ≡ false) p ss u.0,
  UniqueIds-delete_where p ss u.1,
)

pub set_conn-Inv :
    (i : Text) (r : Role) (c : ℕ) (sm : SessionManager) → Inv sm → Inv (set_conn i r c sm).0
unfolding set_conn
set_conn-Inv i r c sm v = elim (Option-cases (find_if (named i) sm.sessions)) [
  | inl missing ↦ rw (missing, set_conn) v
  | inr (s, e) ↦
      rw (e, set_conn)
        (record {
          sound =
              All-update_where IsSound (named i) (store_conn r c) sm.sessions
                (store_conn-IsSound r c) v.sound;
          keyed =
              UniqueIds-update_where (named i) (store_conn r c) sm.sessions (store_conn-id r c)
                v.keyed;
          over = v.over;
        })
]

abbrev is_shut : List ℕ → ℕ → Bool
is_shut shut c = any_of (λ d. d == c) shut

is_shut-append : (xs ys : List ℕ) (c : ℕ) → is_shut ys c ≡ true → is_shut (xs ++ ys) c ≡ true
is_shut-append [] ys c h = h
is_shut-append (x ∷ xs) ys c h = ground (arith, is_shut-append xs ys c)

IsOver-append : (xs ys : List ℕ) (s : ProxySession) → IsOver ys s → IsOver (xs ++ ys) s
IsOver-append xs ys s h = (
  h.0,
  h.1,
  All-map (λ c. is_shut-append xs ys c) (conns_of s.client_conn) h.2,
  All-map (λ c. is_shut-append xs ys c) (conns_of s.worker_conn) h.3,
)

first_shut :
    (o : Option ℕ) (ys : List ℕ) → All (λ c. is_shut (conns_of o ++ ys) c ≡ true) (conns_of o)
first_shut none ys = tt
first_shut (some c) ys = (ground arith, tt)

pub close-Inv : (i : Text) (sm : SessionManager) → Inv sm → Inv (close i sm)
unfolding close
close-Inv i sm v = elim (Option-cases (find_if (named i) sm.sessions)) [
  | inl missing ↦ rw (missing, close) v
  | inr (s, e) ↦
      rw (e, close)
        (record {
          sound = All-delete_where IsSound (named i) sm.sessions v.sound;
          keyed = UniqueIds-delete_where (named i) sm.sessions v.keyed;
          over = (
            (
              refl,
              refl,
              first_shut s.client_conn (conns_of s.worker_conn ++ sm.shut),
              All-map (λ c. is_shut-append (conns_of s.client_conn) _ c) (conns_of s.worker_conn)
                  (first_shut s.worker_conn sm.shut),
            ),
            All-map
                (λ x h.
                  IsOver-append (conns_of s.client_conn) _ x
                    (IsOver-append (conns_of s.worker_conn) sm.shut x h))
                sm.gone v.over,
          );
        })
]

pub close_all-Inv : (is : List Text) (sm : SessionManager) → Inv sm → Inv (close_all is sm)
unfolding close_all
close_all-Inv [] sm v = v
close_all-Inv (i ∷ is) sm v = close_all-Inv is (close i sm) (close-Inv i sm v)

absent_after :
    (i : Text) (ss : List ProxySession)
    → All (λ x. text_eq x.id i ≡ false) (delete_where (named i) ss)
unfolding delete_where
absent_after i [] = tt
absent_after i (s ∷ ss) = elim (Bool-cases (text_eq s.id i)) [
  | inl hit ↦ rw hit (absent_after i ss)
  | inr miss ↦ rw miss (miss, absent_after i ss)
]

pub create-Inv :
    (t : ProxyTarget) (vm_id worker_id : Text) (port : ℕ) (uuid : Text) (bytes : List ℕ) (now : ℕ)
    (sm : SessionManager)
    → Inv sm
    → Inv (create (new_session t vm_id worker_id port uuid bytes now) sm)
unfolding create new_session
create-Inv t vm_id worker_id port uuid bytes now sm v = record {
  sound = ((λ e. cc, refl, refl, refl), All-delete_where IsSound (named uuid) sm.sessions v.sound);
  keyed = (absent_after uuid sm.sessions, UniqueIds-delete_where (named uuid) sm.sessions v.keyed);
  over = v.over;
}
