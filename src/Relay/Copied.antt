-- ===== src/Relay/Copied.antt =====
-- What either side gets of the other's frames.
use mini_control_public.Prelude.{◌≡◌, ◌∙◌, refl, sym, ap, List, [], ◌∷◌, ◌++◌, Option, none, some}
use mathlib.Core.List.{append_assoc, append-nil}
use mini_control_public.Relay.{
  Frame, CopyError, Round, copies, breaks, copy_ws, Direction, client_to_worker, worker_to_client,
  Copier, Relaying, new_relay, round_of, result_of, first_result, relay_round, relay_rounds,
}

-- The rounds of one direction.
abbrev pub rounds_of : Direction → List (Direction × Round) → List Round
rounds_of d [] = []
rounds_of client_to_worker ((client_to_worker, r) ∷ rs) = r ∷ rounds_of client_to_worker rs
rounds_of client_to_worker ((worker_to_client, r) ∷ rs) = rounds_of client_to_worker rs
rounds_of worker_to_client ((client_to_worker, r) ∷ rs) = rounds_of worker_to_client rs
rounds_of worker_to_client ((worker_to_client, r) ∷ rs) = r ∷ rounds_of worker_to_client rs

abbrev pub copier_of : Direction → Relaying → Copier
copier_of client_to_worker st = st.to_worker
copier_of worker_to_client st = st.to_client

-- A goroutine that goes on with its rounds.
abbrev pub continues : Copier → List Round → Copier
continues c [] = c
continues c (r ∷ rs) = continues (round_of c.ended r c) rs

-- What stands first in a list that breaks, with its direction.
abbrev pub first_break : List (Direction × Round) → Option (Direction × CopyError)
first_break [] = none
first_break ((d, copies f) ∷ rs) = first_break rs
first_break ((d, breaks e) ∷ rs) = some (d, e)

relay-continues :
    (d : Direction) (rs : List (Direction × Round)) (st : Relaying)
    → copier_of d (relay_rounds rs st) ≡ continues (copier_of d st) (rounds_of d rs)
unfolding relay_rounds relay_round
relay-continues client_to_worker [] st = refl
relay-continues worker_to_client [] st = refl
relay-continues client_to_worker ((client_to_worker, r) ∷ rs) st =
    relay-continues client_to_worker rs (relay_round client_to_worker r st)
relay-continues client_to_worker ((worker_to_client, r) ∷ rs) st =
    relay-continues client_to_worker rs (relay_round worker_to_client r st)
relay-continues worker_to_client ((client_to_worker, r) ∷ rs) st =
    relay-continues worker_to_client rs (relay_round client_to_worker r st)
relay-continues worker_to_client ((worker_to_client, r) ∷ rs) st =
    relay-continues worker_to_client rs (relay_round worker_to_client r st)

-- One that has ended stays as it is.
continues-ended :
    (e : CopyError) (fs : List Frame) (rs : List Round)
    → continues (record { delivered = fs; ended = some e }) rs
      ≡ record { delivered = fs; ended = some e }
continues-ended e fs [] = refl
continues-ended e fs (r ∷ rs) = continues-ended e fs rs

continues-copy_ws :
    (rs : List Round) (fs : List Frame)
    → continues (record { delivered = fs; ended = none }) rs
      ≡ record { delivered = fs ++ (copy_ws rs).0; ended = (copy_ws rs).1 }
unfolding copy_ws
continues-copy_ws [] fs = ap (λ gs. record { delivered = gs; ended = none }) (sym (append-nil fs))
continues-copy_ws (copies f ∷ rs) fs =
    continues-copy_ws rs (fs ++ f ∷ [])
    ∙ ap (λ gs. record { delivered = gs; ended = (copy_ws rs).1 })
        (append_assoc fs (f ∷ []) (copy_ws rs).0)
continues-copy_ws (breaks e ∷ rs) fs =
    continues-ended e fs rs
    ∙ ap (λ gs. record { delivered = gs; ended = some e }) (sym (append-nil fs))

first_result-stays :
    (r s : Option (Direction × CopyError)) (x : Direction × CopyError)
    → r ≡ some x
    → first_result r s ≡ some x
first_result-stays none s x e = cc e
first_result-stays (some y) s x e = e

-- A result stays, once it is there.
result-stays :
    (rs : List (Direction × Round)) (st : Relaying) (x : Direction × CopyError)
    → st.result ≡ some x
    → (relay_rounds rs st).result ≡ some x
unfolding relay_rounds relay_round
result-stays [] st x e = e
result-stays ((client_to_worker, r) ∷ rs) st x e =
    result-stays rs (relay_round client_to_worker r st) x (
      first_result-stays st.result
        (result_of client_to_worker (round_of st.to_worker.ended r st.to_worker).ended) x e)
result-stays ((worker_to_client, r) ∷ rs) st x e =
    result-stays rs (relay_round worker_to_client r st) x (
      first_result-stays st.result
        (result_of worker_to_client (round_of st.to_client.ended r st.to_client).ended) x e)

result-first_break :
    (rs : List (Direction × Round)) (fs gs : List Frame)
    → (relay_rounds rs (record {
      to_worker = record { delivered = fs; ended = none };
      to_client = record { delivered = gs; ended = none };
      result = none;
    })).result
      ≡ first_break rs
unfolding relay_rounds relay_round
result-first_break [] fs gs = refl
result-first_break ((client_to_worker, copies f) ∷ rs) fs gs =
    result-first_break rs (fs ++ f ∷ []) gs
result-first_break ((worker_to_client, copies f) ∷ rs) fs gs =
    result-first_break rs fs (gs ++ f ∷ [])
result-first_break ((client_to_worker, breaks e) ∷ rs) fs gs =
    result-stays rs _ (client_to_worker, e) refl
result-first_break ((worker_to_client, breaks e) ∷ rs) fs gs =
    result-stays rs _ (worker_to_client, e) refl

alone :
    (d : Direction) (rs : List (Direction × Round))
    → copier_of d (relay_rounds rs new_relay)
      ≡ record { delivered = (copy_ws (rounds_of d rs)).0; ended = (copy_ws (rounds_of d rs)).1 }
alone client_to_worker rs =
    relay-continues client_to_worker rs new_relay
    ∙ continues-copy_ws (rounds_of client_to_worker rs) []
alone worker_to_client rs =
    relay-continues worker_to_client rs new_relay
    ∙ continues-copy_ws (rounds_of worker_to_client rs) []

-- In whatever order the two goroutines run, each side is delivered what `copyWS` makes of the rounds
-- of its direction alone: the frames of the other side, whole and in order, up to the first error.
-- The relay ends with the first error of either direction, and not before.
pub relay-copy_ws :
    (rs : List (Direction × Round))
    → ((d : Direction)
        → ((copier_of d (relay_rounds rs new_relay)).delivered ≡ (copy_ws (rounds_of d rs)).0)
          × ((copier_of d (relay_rounds rs new_relay)).ended ≡ (copy_ws (rounds_of d rs)).1))
      × ((relay_rounds rs new_relay).result ≡ first_break rs)
relay-copy_ws rs = (
  λ d. (ap (λ c. c.delivered) (alone d rs), ap (λ c. c.ended) (alone d rs)),
  result-first_break rs [] [],
)
