-- ===== src/Auth/Header.antt =====
-- The bearer token of a header, in auth.extract_bearer_token.
use core_heartbeat.Prelude.{
  sym, suc, ◌≡◌, refl, false, some, [], ◌∷◌, ◌++◌, strip, is_space, map, length, drop, arith,
  is_empty, ap, ◌∙◌,
}
use core_heartbeat.Auth.{Token, extract_bearer_token, lower_ascii, bearer_prefix, token_or_none}

token-strip :
    (token : Token)
    → strip is_space token ≡ token
    → is_empty token ≡ false
    → token_or_none (strip is_space token) ≡ some token
token-strip [] e n = ground arith
token-strip (c ∷ s) e n = rw e refl

map-append : (xs ys : Token) → map lower_ascii (xs ++ ys) ≡ map lower_ascii xs ++ map lower_ascii ys
map-append [] ys = refl
map-append (x ∷ xs) ys = ap (λ l. lower_ascii x ∷ l) (map-append xs ys)

length-map : (xs : Token) → length (map lower_ascii xs) ≡ length xs
length-map [] = refl
length-map (x ∷ xs) = ap suc (length-map xs)

drop-append : (xs ys : Token) → drop (length xs) (xs ++ ys) ≡ ys
drop-append [] ys = refl
drop-append (x ∷ xs) ys = drop-append xs ys

after_scheme :
    (scheme token : Token)
    → map lower_ascii scheme ≡ bearer_prefix
    → drop (length bearer_prefix) (scheme ++ token) ≡ token
after_scheme scheme token l =
    ap (λ n. drop n (scheme ++ token)) (ap length (sym l) ∙ length-map scheme)
    ∙ drop-append scheme token

-- The token of a header is what follows the scheme "Bearer " in any case, if the token is not empty
-- and has no white space at its ends.
bearer_found :
    (scheme token : Token)
    → map lower_ascii scheme ≡ bearer_prefix
    → strip is_space token ≡ token
    → is_empty token ≡ false
    → extract_bearer_token (record { authorization = some (scheme ++ token) }) ≡ some token
unfolding extract_bearer_token
bearer_found scheme token l e n =
    rw (map-append scheme token, l, after_scheme scheme token l) (token-strip token e n)
