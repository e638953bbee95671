-- ===== src/Host.antt =====
-- server/internal/api/rest/host.go: the host names of requests and of the configuration.
-- `lower_rune` is `unicode.ToLower` outside ASCII, and `parse_host` the host of `url.Parse`, where
-- that succeeds.
pub mod Normal
use mini_control_public.Prelude.{
  ℕ, Bool, true, false, ◌&&◌, not, List, [], ◌∷◌, Option, none, some, ◌==◌, if◌then◌else◌,
}
use mini_control_public.Text.{Text, codes, text_eq, trim_space}
use mini_control_public.Strings.{has_prefix, contains, trim_prefix, cut, to_lower, lacks}

abbrev is_empty : Text → Bool
is_empty [] = true
is_empty (c ∷ cs) = false

-- The last step of `normalizeHost`: a port is cut off. The test whether the part in front of the
-- first colon holds a colon is the source's.
strip_port : Text → Text
strip_port value = elim (cut value b':') [
  | none ↦ value
  | some (host, rest) ↦ if lacks b':' host && not (is_empty host) then host else value
]

-- `[address]`, with or without a port.
strip_brackets : Text → Text
strip_brackets value = elim (cut value b']') [
  | none ↦ value
  | some (address, rest) ↦ trim_prefix address (codes "[")
]

strip : Text → Text
unfolding strip_port strip_brackets
strip value = if has_prefix value (codes "[") then strip_brackets value else strip_port value

-- A request, as far as `requestHost` reads it: `X-Forwarded-Host` and `Host`.
pub record Heading : Type 0 where
  pub forwarded_host : Text
  pub host : Text

module _ (lower_rune : ℕ → ℕ) (parse_host : Text → Option Text) where
  -- A value with a scheme is replaced by the host of the URL, if it is one.
  strip_scheme : Text → Text
  strip_scheme value =
      if contains value (codes "://")
      then elim (parse_host value) [ none ↦ value | some host ↦ trim_space host ]
      else value

  -- `normalizeHost` behind its first line.
  normalize_trimmed : Text → Text
  unfolding strip_scheme strip
  normalize_trimmed value = if is_empty value then [] else strip (strip_scheme value)

  unfoldable pub normalize_host : Text → Text
  unfolding normalize_trimmed
  normalize_host value = normalize_trimmed (trim_space (to_lower lower_rune value))

  unfoldable pub host_matches : Text → Text → Bool
  unfolding normalize_host
  host_matches configured_host actual_host =
      let configured = normalize_host configured_host in
      let actual = normalize_host actual_host in
      if is_empty configured then true else text_eq configured actual

  -- `requestHost`; `none` is the nil request.
  unfoldable pub request_host : Option Heading → Text
  unfolding normalize_host
  request_host none = []
  request_host (some r) =
      let forwarded = trim_space r.forwarded_host in
      if is_empty forwarded then normalize_host r.host else elim (cut forwarded b',') [
        | none ↦ normalize_host forwarded
        | some (first, rest) ↦ normalize_host first
      ]

  -- `matchesBrowserHost` and `matchesWorkerHost`, by the configured host.
  unfoldable pub matches_host : Text → Heading → Bool
  unfolding host_matches request_host
  matches_host configured r = host_matches configured (request_host (some r))

  -- `workerScriptAddress`.
  pub worker_script_address : Text → Heading → Text
  unfolding normalize_host request_host
  worker_script_address configured r =
      let c = normalize_host configured in if is_empty c then request_host (some r) else c
