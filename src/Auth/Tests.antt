-- ===== src/Auth/Tests.antt =====
-- Witnesses of the theorems on auth.py.
use core_heartbeat.Prelude.{String, ◌≡◌, refl, true, Option, some, none, codes, is_space, ◌++◌, ◌⊎◌}
use core_heartbeat.Auth.{
  Token, Verifier, Request, Key, public_key, shared_secret, sandbox_user_id, resolve_user_id,
  extract_bearer_token, user_of, verify_supabase_jwt, by_alg, by_key, decode_and_extract_sub,
}
use core_heartbeat.Auth.Verified.{IsVerified, resolved-IsVerified, no_downgrade}

abbrev with_key : Key → Option (Option String)
with_key (public_key k) = some (some "ana")
with_key (shared_secret k) = none

-- Only tokens under the JWKS verify.
abbrev issuing : Verifier
issuing = record {
  header_alg = λ t. some (some "ES256");
  has_client = true;
  signing_key = λ t. some "k1";
  secret = some (codes "s3cret");
  issuer = none;
  decode = λ t k algs auds iss. with_key k;
}

abbrev rejecting : Verifier
rejecting = record issuing { decode = λ t k algs auds iss. none }

abbrev signed_in : Request
signed_in = record { authorization = some (codes "bEARER " ++ codes "abc") }

resolved-IsVerified_example :
    ("ana" ≡ sandbox_user_id)
    ⊎ ((t : Token) × (extract_bearer_token signed_in ≡ some t) × IsVerified issuing t "ana")
unfolding resolve_user_id extract_bearer_token user_of verify_supabase_jwt by_alg by_key
    decode_and_extract_sub is_space
resolved-IsVerified_example = resolved-IsVerified issuing "ana" signed_in refl

no_downgrade_example : resolve_user_id rejecting signed_in ≡ sandbox_user_id
unfolding extract_bearer_token is_space
no_downgrade_example =
    no_downgrade rejecting signed_in (codes "abc") "ES256" "k1" refl refl refl refl refl
