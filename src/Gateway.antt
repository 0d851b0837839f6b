-- ===== src/Gateway.antt =====
-- apps/gateway/src/voice_gateway/main.py: who may call the gateway. The children are its requests,
-- its views and its routes. `str.lower` and SHA-256 are parameters.
pub mod Facts
pub mod Lines
pub mod Identity
pub mod Requests
pub mod Literal
pub mod Journal
pub mod Patterns
pub mod Checks
pub mod Queries
pub mod Feedback
pub mod Decisions
pub mod Reviews
pub mod Store
pub mod Constants
pub mod Knowledge
pub mod Views
pub mod Routes
use agent_workload_platform.Prelude.{
  ltb, type_error, all_chars, Exn, ◌&&◌, Bool, http_error, String, not, ◌||◌, Option, none, some,
  List, [], ◌∷◌, map, ◌==◌, if◌then◌else◌, all, is_empty, concat, strip, Result, ok, raise,
}

-- What the module reads from its environment, and what it takes from the standard library
pub record Gateway : Type 0 where
  pub gateway_token : String
  pub reader_token : String
  pub writer_token : String
  pub allowed_users : List String
  pub lower : String → String
  pub casefold : String → String
  pub sha256 : String → String

-- Whether `secrets.compare_digest` takes the text
abbrev pub is_ascii : String → Bool
is_ascii s = all_chars (λ n. ltb n 128) s

-- What `compare_digest` raises for a text that it does not take
abbrev pub not_ascii : Exn
not_ascii = type_error "comparing strings with non-ASCII characters is not supported"

-- The rest of a route follows if this raises nothing.
unfoldable pub bearer : String → String → Option String → Result (Unit {0})
bearer token detail none = raise (http_error 401 detail)
bearer token detail (some authorization) =
    if is_ascii authorization && is_ascii (concat "Bearer " token)
    then (if authorization == concat "Bearer " token then ok tt else raise (http_error 401 detail))
    else raise not_ascii

-- Whether two sets of texts, each given by a list, have one member: the first, and no other
one_member : List String → Option String
one_member [] = none
one_member (s ∷ rest) = if all (λ t. t == s) rest then some s else none

module _ (gateway : Gateway) where
  unfoldable pub authenticate : Option String → Result (Unit {0})
  unfolding bearer
  authenticate = bearer gateway.gateway_token "invalid agent gateway credential"

  unfoldable pub authenticate_digital_twin_writer : Option String → Result (Unit {0})
  unfolding bearer
  authenticate_digital_twin_writer =
      bearer gateway.writer_token "invalid digital twin writer credential"

  unfoldable pub authenticate_digital_twin_reader : Option String → Result (Unit {0})
  unfolding bearer
  authenticate_digital_twin_reader =
      bearer gateway.reader_token "invalid digital twin reader credential"

  -- user.strip().lower()
  unfoldable pub normalized : String → String
  normalized user = gateway.lower (strip user)

  allowed : String → Option String → Result String
  allowed value none =
      raise (http_error 503 "voice gateway requires exactly one configured tailnet identity")
  allowed value (some user) =
      if is_empty value || not (value == user)
      then raise (http_error 403 "tailnet identity is not allowed")
      else ok value

  unfoldable pub normalized_identity : String → Result String
  unfolding allowed one_member normalized
  normalized_identity identity =
      allowed (normalized identity) (one_member (map normalized gateway.allowed_users))
