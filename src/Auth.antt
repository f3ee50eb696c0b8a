-- ===== src/Auth.antt =====
-- auth.py: which user a request runs as. PyJWT, the JWKS client and the environment are parameters.
pub mod Verified
pub mod Header
pub mod Tests
use core_heartbeat.Prelude.{
  ℕ, String, Bool, true, false, not, ◌&&◌, ◌||◌, Option, none, some, List, [], ◌∷◌, drop, length,
  codes, one_of, is_empty, is_space, strip, str_eq, same_codes, if◌then◌else◌, leb, ◌+◌, map,
}

abbrev pub sandbox_user_id : String
sandbox_user_id = "sandbox-user"

abbrev pub jwt_algorithms : List String
jwt_algorithms = "HS256" ∷ []

abbrev pub asymmetric_algorithms : List String
asymmetric_algorithms = "RS256" ∷ "ES256" ∷ []

abbrev pub jwt_audiences : List String
jwt_audiences = "authenticated" ∷ "anon" ∷ []

-- A token or a header, by code points.
abbrev pub Token : Type 0
Token = List ℕ

pub data Key : Type 0 where
  public_key : String → Key
  shared_secret : Token → Key

-- The request's headers that are read.
pub record Request : Type 0 where
  pub authorization : Option Token

pub record Verifier : Type 0 where
  -- `jwt.get_unverified_header(token).get("alg")`: none where it raises, then none where it is no
  -- text
  pub header_alg : Token → Option (Option String)
  -- `_get_jwks_client()` and `client.get_signing_key_from_jwt(token).key`
  pub has_client : Bool
  pub signing_key : Token → Option String
  -- `read_secret(SUPABASE_JWT_SECRET_ENV)` and `os.environ.get(SUPABASE_JWT_ISSUER_ENV) or None`
  pub secret : Option Token
  pub issuer : Option String
  -- `jwt.decode(token, key, algorithms, audience, issuer)`: none where it raises, then the `sub` of
  -- the payload, none where it is absent or no text
  pub decode : Token → Key → List String → List String → Option String → Option (Option String)

-- The ASCII part of `str.lower()`: no other code point becomes a letter of the prefix, and the prefix
-- is cut off by its length in the header as it came.
abbrev pub lower_ascii : ℕ → ℕ
lower_ascii c = if leb b'A' c && leb c b'Z' then c + 32 else c

abbrev pub bearer_prefix : Token
bearer_prefix = codes "bearer "

abbrev pub has_prefix : Token → Token → Bool
has_prefix [] s = true
has_prefix (p ∷ ps) [] = false
has_prefix (p ∷ ps) (c ∷ s) = same_codes (p ∷ []) (c ∷ []) && has_prefix ps s

-- `token or None`
abbrev pub token_or_none : Token → Option Token
token_or_none [] = none
token_or_none (c ∷ s) = some (c ∷ s)

abbrev pub bearer_of : Option Token → Option Token
bearer_of none = none
bearer_of (some header) =
    if has_prefix bearer_prefix (map lower_ascii header)
    then token_or_none (strip is_space (drop (length bearer_prefix) header))
    else none

unfoldable pub extract_bearer_token : Request → Option Token
extract_bearer_token r = bearer_of r.authorization

abbrev pub asymmetric_signing_key : Verifier → Token → Option String
asymmetric_signing_key v token = if v.has_client then v.signing_key token else none

-- A `sub` that is absent, no text or empty is rejected.
abbrev pub usable_sub : Option (Option String) → Option String
usable_sub none = none
usable_sub (some none) = none
usable_sub (some (some sub)) = if str_eq sub "" then none else some sub

unfoldable pub decode_and_extract_sub : Verifier → Token → Key → List String → Option String
decode_and_extract_sub v token key algorithms =
    usable_sub (v.decode token key algorithms jwt_audiences v.issuer)

abbrev pub with_secret : Verifier → Token → Option Token → Option String
unfolding decode_and_extract_sub
with_secret v token none = none
with_secret v token (some secret) =
    if is_empty (strip is_space secret)
    then none
    else decode_and_extract_sub v token (shared_secret secret) jwt_algorithms

unfoldable pub verify_hs256 : Verifier → Token → Option String
unfolding with_secret
verify_hs256 v token = with_secret v token v.secret

abbrev pub by_key : Verifier → Token → String → Option String → Option String
unfolding decode_and_extract_sub verify_hs256
by_key v token alg (some key) = decode_and_extract_sub v token (public_key key) (alg ∷ [])
by_key v token alg none = verify_hs256 v token

abbrev pub by_alg : Verifier → Token → Option (Option String) → Option String
unfolding by_key verify_hs256
by_alg v token none = none
by_alg v token (some none) = verify_hs256 v token
by_alg v token (some (some alg)) =
    if one_of asymmetric_algorithms alg
    then by_key v token alg (asymmetric_signing_key v token)
    else verify_hs256 v token

unfoldable pub verify_supabase_jwt : Verifier → Token → Option String
unfolding by_alg
verify_supabase_jwt v token = by_alg v token (v.header_alg token)

-- `SANDBOX_USER_ID` unless a token is present and verified.
abbrev pub verified_or_sandbox : Option String → String
verified_or_sandbox none = sandbox_user_id
verified_or_sandbox (some user) = if str_eq user "" then sandbox_user_id else user

abbrev pub user_of : Verifier → Option Token → String
unfolding verify_supabase_jwt
user_of v none = sandbox_user_id
user_of v (some token) = verified_or_sandbox (verify_supabase_jwt v token)

unfoldable pub resolve_user_id : Verifier → Request → String
unfolding extract_bearer_token user_of
resolve_user_id v r = user_of v (extract_bearer_token r)
