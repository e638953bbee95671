-- ===== src/Workers/Registered.antt =====
-- What a registration leaves: the row, the sessions and the token.
use mini_control_public.Prelude.{
  ℕ, ◌≡◌, ◌⊎◌, true, false, List, none, Option, some, find_if, delete_where, All,
}
use mini_control_public.Text.{Text, text_eq}
use mini_control_public.Model.{Worker, active}
use mini_control_public.Db.{Db, ok}
use mini_control_public.Http.{Reply, reply, refuse, panic}
use mini_control_public.WorkerTokens.{
  Issuing, accepts, is_worker, hash_worker_token, generate_worker_token, authenticate_worker_token,
}
use mini_control_public.Hostnames.{generate_worker_id}
use mini_control_public.Workers.{WorkerRegisterRequest, WorkerConfig, RegisterReply, State}

-- The row under the ID is active, named as it asked to be.
abbrev pub Enrolled : Text → Text → Db → Type 0
Enrolled i hostname db =
    (w : Worker) × (find_if (is_worker i) db.workers ≡ some w)
    × (w.status ≡ active)
    × (w.hostname ≡ hostname)

module _ (sha256 : Text → List ℕ) (cfg : WorkerConfig) (now : ℕ) (issuing : Issuing) where
  -- If the reply hands out a token, it is a new one, and it authenticates the worker.
  abbrev pub HandsOut : Text → RegisterReply → Db → Type 0
  HandsOut i r db =
      (r.worker_token ≡ none)
      ⊎ ((bytes : List ℕ) × (issuing.token_bytes ≡ some bytes)
          × (issuing.executes ≡ true)
          × (r.worker_token ≡ some (generate_worker_token bytes))
          × ((w : Worker) × (authenticate_worker_token sha256 db (generate_worker_token bytes)
                ≡ ok w)
              × (w.id ≡ i)))

  -- The row and the sessions behind a registration that got as far as them.
  abbrev pub Entered : WorkerRegisterRequest → State → State → Type 0
  Entered req st st' =
      let i = generate_worker_id sha256 req.hardware_uuid in
      Enrolled i req.hostname st'.0
      × (st'.1.sessions ≡ delete_where (λ s. text_eq s.worker_id i) st.1.sessions)

  abbrev pub Registered : WorkerRegisterRequest → State → RegisterReply → State → Type 0
  Registered req st r st' =
      let i = generate_worker_id sha256 req.hardware_uuid in
      (r.worker_id ≡ i) × Entered req st st' × HandsOut i r st'.0

  -- A request that is refused changes nothing, unless it is a token that could not be issued.
  abbrev pub Outcome : WorkerRegisterRequest → State → Reply RegisterReply × State → Type 0
  Outcome req st (reply status r, st') = (status ≡ 200) × Registered req st r st'
  Outcome req st (refuse status why, st') =
      (st' ≡ st)
      ⊎ ((status ≡ 500)
          × ((issuing.token_bytes ≡ none) ⊎ (issuing.executes ≡ false))
          × Entered req st st')
  Outcome req st (panic, st') = ⊥

  -- No worker is accepted with the token that the bytes make.
  abbrev pub Unused : Option (List ℕ) → Db → Type 0
  Unused none db = Unit
  Unused (some bytes) db =
      All (λ x. accepts (hash_worker_token sha256 (generate_worker_token bytes)) x ≡ false)
        db.workers
