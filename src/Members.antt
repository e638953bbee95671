-- ===== src/Members.antt =====
-- server/internal/db/members.go: the table of members, by the subject of their access token. `now`
-- is the database's clock and `uuid` the ID that `gen_random_uuid()` gives.
pub mod Upsert
use mini_control_public.Prelude.{
  ℕ, Bool, List, [], ◌∷◌, ◌++◌, Option, none, some, find_if, any_of, update_where, if◌then◌else◌,
}
use mini_control_public.Text.{Text, text_eq}
use mini_control_public.Strings.{cut}
use mini_control_public.Model.{Member, member}
use mini_control_public.Db.{Result, ok, err, failure, or_not_found}

abbrev pub has_sub : Text → Member → Bool
has_sub sub m = text_eq m.access_sub sub

-- `displayName`: what stands before the `@` of the address, if anything does.
pub display_name : Text → Text
display_name email = elim (cut email b'@') [
  | none ↦ email
  | some (local, rest) ↦ elim local [ [] ↦ email | c ∷ cs ↦ c ∷ cs ]
]

abbrev pub new_member : ℕ → Text → Text → Text → Text → Member
new_member now uuid sub email name = record {
  id = uuid;
  access_sub = sub;
  email = email;
  display_name = name;
  role = member;
  created_at = now;
  updated_at = now;
  last_seen_at = now;
}

abbrev pub seen : ℕ → Text → Member → Member
seen now email m = record m { email = email; updated_at = now; last_seen_at = now }

-- `ON CONFLICT (access_sub)`, by the row that is in conflict.
unfoldable pub insert_or_see :
    ℕ → Text → Text → Text → List Member → Option Member → Result (Member × List Member)
unfolding display_name
insert_or_see now uuid sub email ms (some m) =
    ok (seen now email m, update_where (has_sub sub) (seen now email) ms)
insert_or_see now uuid sub email ms none =
    if any_of (λ m. text_eq m.id uuid) ms
    then err failure
    else let n = new_member now uuid sub email (display_name email) in ok (n, ms ++ n ∷ [])

unfoldable pub upsert_member_from_access :
    ℕ → Text → Text → Text → List Member → Result (Member × List Member)
unfolding insert_or_see
upsert_member_from_access now uuid sub email ms =
    insert_or_see now uuid sub email ms (find_if (has_sub sub) ms)

unfoldable pub get_member_by_access_sub : List Member → Text → Result Member
get_member_by_access_sub ms sub = or_not_found (find_if (has_sub sub) ms)
