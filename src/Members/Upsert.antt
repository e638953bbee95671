-- ===== src/Members/Upsert.antt =====
-- What a login leaves of the members.
use mini_control_public.Prelude.{
  ℕ, ◌≡◌, refl, false, List, [], ◌∷◌, ◌++◌, Option, none, some, find_if, find_if-passes, Bool-cases,
  any_of, update_where, if◌then◌else◌, arith, inl, inr, ap,
}
use mini_control_public.Text.{Text, text_eq, text_eq_refl, text_eq_iff}
use mini_control_public.Model.{Member}
use mini_control_public.Db.{Result, ok, err, or_not_found}
use mini_control_public.Members.{
  has_sub, seen, new_member, display_name, insert_or_see, upsert_member_from_access,
  get_member_by_access_sub,
}

find_if-seen :
    (now : ℕ) (email sub : Text) (ms : List Member) (m : Member)
    → find_if (has_sub sub) ms ≡ some m
    → find_if (has_sub sub) (update_where (has_sub sub) (seen now email) ms)
      ≡ some (seen now email m)
unfolding update_where
find_if-seen now email sub [] m e = cc e
find_if-seen now email sub (x ∷ ms) m e = ground (arith, find_if-seen now email sub ms m)

find_if-seen_other :
    (now : ℕ) (email sub other : Text) (ms : List Member)
    → text_eq sub other ≡ false
    → find_if (has_sub other) (update_where (has_sub sub) (seen now email) ms)
      ≡ find_if (has_sub other) ms
unfolding update_where
find_if-seen_other now email sub other [] ne = refl
find_if-seen_other now email sub other (x ∷ ms) ne = ground (
  arith,
  ne,
  text_eq_iff x.access_sub sub,
  text_eq_iff x.access_sub other,
  text_eq_iff sub other,
  find_if-seen_other now email sub other ms ne,
)

find_if-new :
    (sub : Text) (ms : List Member) (n : Member)
    → find_if (has_sub sub) ms ≡ none
    → find_if (has_sub sub) (ms ++ n ∷ []) ≡ (if text_eq n.access_sub sub then some n else none)
find_if-new sub [] n e = refl
find_if-new sub (x ∷ ms) n e = ground (arith, find_if-new sub ms n)

find_if-new_other :
    (other : Text) (ms : List Member) (n : Member)
    → text_eq n.access_sub other ≡ false
    → find_if (has_sub other) (ms ++ n ∷ []) ≡ find_if (has_sub other) ms
find_if-new_other other [] n ne = rw ne refl
find_if-new_other other (x ∷ ms) n ne = ground (arith, find_if-new_other other ms n ne)

-- The answer's member is found by its subject, and the other subject's is what it was.
abbrev pub Known : List Member → Text → Text → Text → Result (Member × List Member) → Type 0
Known ms sub other email (err e) = find_if (has_sub sub) ms ≡ none
Known ms sub other email (ok (m, ms')) =
    (m.access_sub ≡ sub)
    × (m.email ≡ email)
    × (get_member_by_access_sub ms' sub ≡ ok m)
    × (get_member_by_access_sub ms' other ≡ get_member_by_access_sub ms other)

Known-insert_or_see :
    (now : ℕ) (uuid sub email other : Text) (ms : List Member) (o : Option Member)
    → text_eq sub other ≡ false
    → find_if (has_sub sub) ms ≡ o
    → Known ms sub other email (insert_or_see now uuid sub email ms o)
unfolding insert_or_see get_member_by_access_sub
Known-insert_or_see now uuid sub email other ms (some m) ne e = (
  (text_eq_iff m.access_sub sub).0 (find_if-passes (has_sub sub) ms m e),
  refl,
  ap or_not_found (find_if-seen now email sub ms m e),
  ap or_not_found (find_if-seen_other now email sub other ms ne),
)
Known-insert_or_see now uuid sub email other ms none ne e =
    elim (Bool-cases (any_of (λ m. text_eq m.id uuid) ms)) [
      | inl clash ↦ rw clash e
      | inr free ↦
          let n = new_member now uuid sub email (display_name email) in
          rw free (
            refl,
            refl,
            ap or_not_found (rw (text_eq_refl sub) at (find_if-new sub ms n e)),
            ap or_not_found (find_if-new_other other ms n ne),
          )
    ]

-- After a login that answers with a member, that member has the subject and the address of the
-- login, a lookup by the subject finds it, and a lookup by another subject finds what it did; a
-- login fails only for a subject that is not in the table.
pub upsert-Known :
    (now : ℕ) (uuid sub email other : Text) (ms : List Member)
    → text_eq sub other ≡ false
    → Known ms sub other email (upsert_member_from_access now uuid sub email ms)
unfolding upsert_member_from_access
upsert-Known now uuid sub email other ms ne =
    Known-insert_or_see now uuid sub email other ms (find_if (has_sub sub) ms) ne refl
