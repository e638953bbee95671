-- ===== src/Codesign/Leaf.antt =====
-- Which certificate of a signature names the signer.
use mini_control_public.Prelude.{
  ◌≡◌, true, false, not, List, [], ◌∷◌, ◌++◌, Option, none, some, find_if, All, if-cases, subst,
  not-true, not-false,
}
use mini_control_public.Codesign.{Certificate, leaf_certificate, leaf_or_first}

abbrev IsAuthority : Certificate → Type 0
IsAuthority c = c.is_ca ≡ true

-- The first certificate that is no authority's, or the first of all if there is none.
pub data Leaf : List Certificate → Certificate → Type 0 where
  end_entity :
      (front : List Certificate) (c : Certificate) (back : List Certificate)
      → All IsAuthority front
      → c.is_ca ≡ false
      → Leaf (front ++ c ∷ back) c
  only_authorities :
      (c : Certificate) (cs : List Certificate) → All IsAuthority (c ∷ cs) → Leaf (c ∷ cs) c

-- What looking for it in a list gives.
data Search : List Certificate → Option Certificate → Type 0 where
  hits :
      (front : List Certificate) (c : Certificate) (back : List Certificate)
      → All IsAuthority front
      → c.is_ca ≡ false
      → Search (front ++ c ∷ back) (some c)
  misses : (cs : List Certificate) → All IsAuthority cs → Search cs none

behind :
    (c : Certificate) (cs : List Certificate) (o : Option Certificate)
    → IsAuthority c
    → Search cs o
    → Search (c ∷ cs) o
behind c cs o a (hits front d back h n) = hits (c ∷ front) d back (a, h) n
behind c cs o a (misses ds h) = misses (c ∷ ds) (a, h)

find_if-Search : (cs : List Certificate) → Search cs (find_if (λ c. not c.is_ca) cs)
find_if-Search [] = misses [] tt
find_if-Search (c ∷ cs) =
    if-cases (Search (c ∷ cs)) (not c.is_ca) (some c) _ (λ e. hits [] c cs tt (not-true c.is_ca e))
      (λ e. behind c cs _ (not-false c.is_ca e) (find_if-Search cs))

leaf_or_first-Leaf :
    (cs : List Certificate) (o : Option Certificate) (c : Certificate)
    → Search cs o
    → leaf_or_first o cs ≡ some c
    → Leaf cs c
leaf_or_first-Leaf cs o c (hits front d back h n) e =
    subst (Leaf (front ++ d ∷ back)) (cc e) (end_entity front d back h n)
leaf_or_first-Leaf cs o c (misses [] h) e = cc e
leaf_or_first-Leaf cs o c (misses (d ∷ ds) h) e =
    subst (Leaf (d ∷ ds)) (cc e) (only_authorities d ds h)

pub leaf_certificate-Leaf :
    (cs : List Certificate) (c : Certificate) → leaf_certificate cs ≡ some c → Leaf cs c
unfolding leaf_certificate
leaf_certificate-Leaf cs c e =
    leaf_or_first-Leaf cs (find_if (λ c. not c.is_ca) cs) c (find_if-Search cs) e
