-- ===== src/Auth/Verified.antt =====
-- What stands behind an identity that auth.resolve_user_id returns.
use core_heartbeat.Prelude.{
  Option-cases, sym, Bool-cases, String, ◌≡◌, refl, true, false, none, some, Option, [], ◌∷◌,
  is_space, strip, is_empty, one_of, str_eq, arith, ◌⊎◌, inl, inr,
}
use core_heartbeat.Auth.{
  Token, public_key, shared_secret, Verifier, Request, sandbox_user_id, jwt_algorithms,
  jwt_audiences, asymmetric_algorithms, asymmetric_signing_key, usable_sub, decode_and_extract_sub,
  with_secret, verify_hs256, by_key, by_alg, verify_supabase_jwt, user_of, resolve_user_id,
  extract_bearer_token,
}

-- The token verifies as `sub`: with a public key of the JWKS and the one asymmetric algorithm that
-- its header names, or with the shared secret and HS256 alone.
pub data IsVerified (v : Verifier) (token : Token) : String → Type 0 where
  by_jwks :
      (alg key : String) {sub : String}
      → v.header_alg token ≡ some (some alg)
      → one_of asymmetric_algorithms alg ≡ true
      → asymmetric_signing_key v token ≡ some key
      → v.decode token (public_key key) (alg ∷ []) jwt_audiences v.issuer ≡ some (some sub)
      → IsVerified v token sub
  by_secret :
      (secret : Token) {sub : String}
      → v.secret ≡ some secret
      → is_empty (strip is_space secret) ≡ false
      → v.decode token (shared_secret secret) jwt_algorithms jwt_audiences v.issuer
        ≡ some (some sub)
      → IsVerified v token sub

usable : (o : Option (Option String)) (sub : String) → usable_sub o ≡ some sub → o ≡ some (some sub)
usable none sub e = cc
usable (some none) sub e = cc
usable (some (some x)) sub e = ground arith

module _ (v : Verifier) (token : Token) (sub : String) where
  secret-IsVerified :
      (o : Option Token) → v.secret ≡ o → with_secret v token o ≡ some sub → IsVerified v token sub
  unfolding with_secret decode_and_extract_sub
  secret-IsVerified none s e = ground arith
  secret-IsVerified (some secret) s e = elim (Bool-cases (is_empty (strip is_space secret))) [
    | inl blank ↦ ground arith
    | inr real ↦ by_secret secret s real (usable _ sub (ground arith))
  ]

  hs256-IsVerified : verify_hs256 v token ≡ some sub → IsVerified v token sub
  unfolding verify_hs256
  hs256-IsVerified e = secret-IsVerified v.secret refl e

  key-IsVerified :
      (alg : String) (key : Option String)
      → v.header_alg token ≡ some (some alg)
      → one_of asymmetric_algorithms alg ≡ true
      → asymmetric_signing_key v token ≡ key
      → by_key v token alg key ≡ some sub
      → IsVerified v token sub
  unfolding by_key decode_and_extract_sub
  key-IsVerified alg none h a k e = hs256-IsVerified e
  key-IsVerified alg (some key) h a k e = by_jwks alg key h a k (usable _ sub e)

  alg-IsVerified :
      (alg : Option (Option String))
      → v.header_alg token ≡ alg
      → by_alg v token alg ≡ some sub
      → IsVerified v token sub
  unfolding by_alg
  alg-IsVerified none h e = ground arith
  alg-IsVerified (some none) h e = hs256-IsVerified e
  alg-IsVerified (some (some alg)) h e = elim (Bool-cases (one_of asymmetric_algorithms alg)) [
    | inl a ↦ key-IsVerified alg (asymmetric_signing_key v token) h a refl (ground arith)
    | inr a ↦ hs256-IsVerified (ground arith)
  ]

  jwt-IsVerified : verify_supabase_jwt v token ≡ some sub → IsVerified v token sub
  unfolding verify_supabase_jwt
  jwt-IsVerified e = alg-IsVerified (v.header_alg token) refl e

module _ (v : Verifier) (user : String) where
  user-IsVerified :
      (token : Option Token)
      → user_of v token ≡ user
      → (user ≡ sandbox_user_id) ⊎ ((t : Token) × (token ≡ some t) × IsVerified v t user)
  unfolding user_of
  user-IsVerified none e = inl (sym e)
  user-IsVerified (some t) e = elim (Option-cases (verify_supabase_jwt v t)) [
    | inl absent ↦ inl (ground arith)
    | inr (sub, found) ↦ elim (Bool-cases (str_eq sub "")) [
      | inl empty ↦ inl (ground arith)
      | inr real ↦ inr (t, refl, jwt-IsVerified v t user (ground arith))
    ]
  ]

  -- A request runs as the sandbox user, or as the `sub` of its own bearer token, which verified
  -- with the audiences and the issuer of the deployment, and either with a public key under the one
  -- asymmetric algorithm that the token names, or with the configured secret under HS256: a public
  -- key is never used as the secret of an HS256 token.
  pub resolved-IsVerified :
      (r : Request)
      → resolve_user_id v r ≡ user
      → (user ≡ sandbox_user_id)
        ⊎ ((t : Token) × (extract_bearer_token r ≡ some t) × IsVerified v t user)
  unfolding resolve_user_id
  resolved-IsVerified r e = user-IsVerified (extract_bearer_token r) e

-- An asymmetric token for which the JWKS has a key, and which does not verify with that key, runs
-- as the sandbox user: the shared secret is not tried.
pub no_downgrade :
    (v : Verifier) (r : Request) (t : Token) (alg key : String)
    → extract_bearer_token r ≡ some t
    → v.header_alg t ≡ some (some alg)
    → one_of asymmetric_algorithms alg ≡ true
    → asymmetric_signing_key v t ≡ some key
    → v.decode t (public_key key) (alg ∷ []) jwt_audiences v.issuer ≡ none
    → resolve_user_id v r ≡ sandbox_user_id
unfolding resolve_user_id user_of verify_supabase_jwt by_alg by_key decode_and_extract_sub
no_downgrade v r t alg key b h a k f = rw (b, h, a, k, f) refl
