-- ===== src/Access/Keys.antt =====
-- The verifier's keys: `refreshKeys`, `parseAccessCerts` and `lookupKey`.
-- `decode` is `base64.RawURLEncoding.DecodeString`, `parse_pem` finds the RSA key of a certificate,
-- and `parse_certs_json` reads the two lists of the response.
use mini_control_public.Prelude.{
  ℕ, ◌+◌, ◌*◌, ◌≡◌, ◌⊎◌, inl, inr, refl, false, ◌||◌, not, List, [], ◌∷◌, Option, none, some, leb,
  ◌==◌, if◌then◌else◌, arith, Bool-cases,
}
use mini_control_public.Text.{Text, codes, text_eq}
use mini_control_public.Http.{is_empty}
use mini_control_public.Access.{
  PublicKey, AccessVerifier, decode_modulus, decode_exponent, invalid_exponent, invalid_certificate,
  no_usable_keys, unknown_key_id, fetch_certs, parse_certs, Checked, passed, failed, ◌>>=◌, ◌>>◌,
  >>=-passed, >>-passed, refuse_if, or_fail, put_key, find_key, is_outdated,
}

pub record Jwk : Type 0 where
  pub kid : Text
  pub kty : Text
  pub n : Text
  pub e : Text

pub record CertResponse : Type 0 where
  pub public_certs : List (Text × Text)
  pub keys : List Jwk

-- What the request for the certificates comes to: no response, or a status and a body, which is
-- missing where reading it failed.
pub data Fetched : Type 0 where
  no_response : Fetched
  response : ℕ → Option (List ℕ) → Fetched

-- `big.Int.SetBytes`: big-endian.
abbrev set_bytes : ℕ → List ℕ → ℕ
set_bytes acc [] = acc
set_bytes acc (b ∷ bs) = set_bytes (acc * 256 + b) bs

abbrev Keys : Type 0
Keys = List (Text × PublicKey)

module _ (decode : Text → Option (List ℕ)) (parse_pem : Text → Option PublicKey)
    (parse_certs_json : List ℕ → Option CertResponse) where
  unfoldable pub parse_jwk_public_key : Text → Text → Checked PublicKey
  parse_jwk_public_key n_raw e_raw = do
    n ← or_fail (decode n_raw) decode_modulus
    e ← or_fail (decode e_raw) decode_exponent
    refuse_if (leb 0x8000_0000_0000_0000 (set_bytes 0 e)) invalid_exponent
    passed (record { n = set_bytes 0 n; e = set_bytes 0 e })

  -- The loop over `payload.PublicCerts`.
  unfoldable pub add_certs : List (Text × Text) → Keys → Checked Keys
  add_certs [] result = passed result
  add_certs ((kid, cert) ∷ certs) result = or_fail (parse_pem cert) invalid_certificate >>= λ key.
      add_certs certs (put_key kid key result)

  -- The loop over `payload.Keys`.
  unfoldable pub add_jwks : List Jwk → Keys → Checked Keys
  unfolding parse_jwk_public_key
  add_jwks [] result = passed result
  add_jwks (k ∷ ks) result =
      let skip = add_jwks ks result in
      let take_it =
        parse_jwk_public_key k.n k.e >>= λ key. add_jwks ks (put_key k.kid key result) in
      if not (text_eq k.kty (codes "RSA")) || is_empty k.kid then skip else take_it

  abbrev some_keys : Keys → Checked Keys
  some_keys [] = failed no_usable_keys
  some_keys (k ∷ ks) = passed (k ∷ ks)

  unfoldable pub parse_access_certs : List ℕ → Checked Keys
  unfolding add_certs add_jwks
  parse_access_certs body = do
    payload ← or_fail (parse_certs_json body) parse_certs
    certs ← add_certs payload.public_certs []
    keys ← add_jwks payload.keys certs
    some_keys keys

  abbrev stored : ℕ → AccessVerifier → Keys → AccessVerifier
  stored clock v keys = record v { keys = keys; fetched_at = some clock }

  -- `refreshKeys`, with what the request came to.
  unfoldable pub refresh_keys : ℕ → Fetched → AccessVerifier → Checked AccessVerifier
  unfolding parse_access_certs
  refresh_keys clock no_response v = failed fetch_certs
  refresh_keys clock (response status content) v = do
    refuse_if (not (status == 200)) fetch_certs
    body ← or_fail content fetch_certs
    keys ← parse_access_certs body
    passed (stored clock v keys)

  -- `refreshKeys` and the second look into the map; a refresh that fails changes nothing.
  refreshed_key :
      Text → AccessVerifier → Checked AccessVerifier → AccessVerifier × Checked PublicKey
  refreshed_key kid v (failed why) = (v, failed why)
  refreshed_key kid v (passed v') = (v', or_fail (find_key kid v'.keys) unknown_key_id)

  fresh_key : ℕ → AccessVerifier → Option PublicKey → Option PublicKey
  fresh_key clock v none = none
  fresh_key clock v (some key) = if is_outdated clock v.fetched_at then none else some key

  lookup_from :
      ℕ → Fetched → Text → AccessVerifier → Option PublicKey → AccessVerifier × Checked PublicKey
  unfolding refreshed_key
  lookup_from clock fetched kid v (some key) = (v, passed key)
  lookup_from clock fetched kid v none = refreshed_key kid v (refresh_keys clock fetched v)

  unfoldable pub lookup_key :
      ℕ → Fetched → Text → AccessVerifier → AccessVerifier × Checked PublicKey
  unfolding lookup_from fresh_key
  lookup_key clock fetched kid v =
      lookup_from clock fetched kid v (fresh_key clock v (find_key kid v.keys))

  -- The key of an answer is one that the verifier then holds under that ID.
  abbrev pub Known : ℕ → Text → AccessVerifier → AccessVerifier × Checked PublicKey → Type 0
  Known clock kid v (v', failed why) = Unit {0}
  Known clock kid v (v', passed key) =
      (find_key kid v'.keys ≡ some key)
      × (is_outdated clock v'.fetched_at ≡ false)
      × ((v' ≡ v) ⊎ (v'.fetched_at ≡ some clock))

  refresh_keys-fetched_at :
      (clock : ℕ) (fetched : Fetched) (v v' : AccessVerifier)
      → refresh_keys clock fetched v ≡ passed v'
      → v'.fetched_at ≡ some clock
  unfolding refresh_keys
  refresh_keys-fetched_at clock no_response v v' h = cc h
  refresh_keys-fetched_at clock (response status content) v v' h =
      let rest = >>-passed (refuse_if (not (status == 200)) fetch_certs) _ h in
      let (body, _, read) =
        >>=-passed (or_fail content fetch_certs)
          (λ body. parse_access_certs body >>= λ keys. passed (stored clock v keys)) rest in
      let (keys, _, same) =
        >>=-passed (parse_access_certs body) (λ keys. passed (stored clock v keys)) read in
      ground arith

  Known-refreshed_key :
      (clock : ℕ) (kid : Text) (v : AccessVerifier) (r : Checked AccessVerifier)
      → ((v' : AccessVerifier) → r ≡ passed v' → v'.fetched_at ≡ some clock)
      → Known clock kid v (refreshed_key kid v r)
  unfolding refreshed_key
  Known-refreshed_key clock kid v (failed why) h = tt
  Known-refreshed_key clock kid v (passed v') h = go (find_key kid v'.keys) refl
    where
      go :
          (o : Option PublicKey)
          → find_key kid v'.keys ≡ o
          → Known clock kid v (v', or_fail o unknown_key_id)
      go none e = tt
      go (some key) e = (e, rw (h v' refl) (ground arith), inr (h v' refl))

  -- A key that is looked up successfully is the one that the verifier holds under the ID, in a set
  -- that was fetched at most five minutes before; the verifier is the same, or has just fetched.
  pub lookup_key-Known :
      (clock : ℕ) (fetched : Fetched) (kid : Text) (v : AccessVerifier)
      → Known clock kid v (lookup_key clock fetched kid v)
  unfolding lookup_key
  lookup_key-Known clock fetched kid v = held (find_key kid v.keys) refl
    where
      held :
          (o : Option PublicKey)
          → find_key kid v.keys ≡ o
          → Known clock kid v (lookup_from clock fetched kid v (fresh_key clock v o))
      held none same =
          Known-refreshed_key clock kid v (refresh_keys clock fetched v)
            (refresh_keys-fetched_at clock fetched v)
      held (some k) same = elim (Bool-cases (is_outdated clock v.fetched_at)) [
        | inl stale ↦ rw stale (
            Known-refreshed_key clock kid v (refresh_keys clock fetched v)
              (refresh_keys-fetched_at clock fetched v))
        | inr fresh ↦ rw fresh (same, fresh, inl refl)
      ]
