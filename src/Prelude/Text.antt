-- ===== src/Prelude/Text.antt =====
-- Whole texts are native strings; text that the program walks is a list of code points.
use Prim.Native.Nat.{ℕ, zero, suc, ◌/◌, ◌%◌}
use Prim.Native.Char.{code}
use Prim.Native.String.{String, ◌++◌}
use mathlib.Core.Bool.{Bool, true, false, ◌&&◌, ◌||◌}
use mathlib.Core.List.{List, [], ◌∷◌, ◌++◌ as list_append}
use mathlib.Core.Path.{◌≡◌, refl}
use native.Mathlib.Omega.{arith}
use text.Mathlib.Text.{◌==◌ as str_eq}
use core_heartbeat.Prelude.Tests.{and_both, ltb, leb, ◌==◌, if◌then◌else◌}
use core_heartbeat.Prelude.Lists.{any}

abbrev pub codes : String → List ℕ
codes String.[] = []
codes (String.◌∷◌ c s) = code c ∷ codes s

-- `name in {...}`
abbrev pub one_of : List String → String → Bool
one_of names name = any (λ n. str_eq n name) names

abbrev pub same_codes : List ℕ → List ℕ → Bool
same_codes [] [] = true
same_codes [] (y ∷ ys) = false
same_codes (x ∷ xs) [] = false
same_codes (x ∷ xs) (y ∷ ys) = x == y && same_codes xs ys

pub same_codes_eq : (s t : List ℕ) → same_codes s t ≡ true → s ≡ t
same_codes_eq [] [] e = refl
same_codes_eq [] (d ∷ t) e = ground arith
same_codes_eq (c ∷ s) [] e = ground arith
same_codes_eq (c ∷ s) (d ∷ t) e = ground (arith, e, same_codes_eq s t (and_both (c == d) _ e).1)

-- What `str.strip()` and `str.split()` take for whitespace.
unfoldable pub is_space : ℕ → Bool
is_space c =
    (leb 9 c && leb c 13)
    || (leb 28 c && leb c 32)
    || c == 0x85
    || c == 0xa0
    || c == 0x1680
    || (leb 0x2000 c && leb c 0x200a)
    || c == 0x2028
    || c == 0x2029
    || c == 0x202f
    || c == 0x205f
    || c == 0x3000

-- `s.lstrip(...)` by a test on code points
abbrev pub lstrip : (ℕ → Bool) → List ℕ → List ℕ
lstrip p [] = []
lstrip p (c ∷ s) = let rest = lstrip p s in if p c then rest else c ∷ s

-- A code point before what is left of the rest.
abbrev pub last_kept : (ℕ → Bool) → ℕ → List ℕ → List ℕ
last_kept p c [] = if p c then [] else c ∷ []
last_kept p c (d ∷ r) = c ∷ d ∷ r

-- `s.rstrip(...)`
abbrev pub rstrip : (ℕ → Bool) → List ℕ → List ℕ
rstrip p [] = []
rstrip p (c ∷ s) = last_kept p c (rstrip p s)

abbrev pub strip : (ℕ → Bool) → List ℕ → List ℕ
strip p s = rstrip p (lstrip p s)

-- `str(n)`
abbrev digit : ℕ → String
digit d =
    if d == 0
    then "0"
    else if d == 1
    then "1"
    else if d == 2
    then "2"
    else if d == 3
    then "3"
    else if d == 4
    then "4"
    else if d == 5
    then "5"
    else if d == 6
    then "6"
    else if d == 7
    then "7"
    else if d == 8
    then "8"
    else "9"

decimal_within : ℕ → ℕ → String
decimal_within zero n = ""
decimal_within (suc fuel) n =
    let more = decimal_within fuel (n / 10) in if ltb n 10 then digit n else more ++ digit (n % 10)

-- A number has no more digits than its value and one.
unfoldable pub decimal : ℕ → String
unfolding decimal_within
decimal n = decimal_within (suc n) n

-- `", ".join(texts)`
unfoldable pub join : String → List String → String
join sep [] = ""
join sep (t ∷ ts) = elim ts [ [] ↦ t | u ∷ us ↦ t ++ sep ++ join sep ts ]

-- `"".join(texts)`
abbrev pub concat : List String → String
concat [] = ""
concat (t ∷ ts) = t ++ concat ts

abbrev pub begins_with : List ℕ → List ℕ → Bool
begins_with [] s = true
begins_with (p ∷ ps) [] = false
begins_with (p ∷ ps) (c ∷ s) = p == c && begins_with ps s

pub begins_with_self : (part s : List ℕ) → begins_with part (list_append part s) ≡ true
begins_with_self [] s = refl
begins_with_self (p ∷ part) s = ground (arith, begins_with_self part s)

-- `part in s`
abbrev pub contains : List ℕ → List ℕ → Bool
contains part [] = begins_with part []
contains part (c ∷ s) = begins_with part (c ∷ s) || contains part s
