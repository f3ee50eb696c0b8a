-- ===== src/Uploads/Name.antt =====
-- services/uploads.py `safe_name`: a file name that Windows can open. A name is a list of code points.
use core_heartbeat.Prelude.{
  ℕ, ◌+◌, ◌-◌, Bool, ◌&&◌, ◌||◌, ◌==◌, List, [], ◌∷◌, ◌++◌, any, map, codes, same_codes,
  if◌then◌else◌, leb, ltb, lstrip, rstrip,
}

abbrev pub Name : Type 0
Name = List ℕ

abbrev pub max_name_bytes : ℕ
max_name_bytes = 200

abbrev pub reserved_stems : List Name
reserved_stems = map codes (
    "con" ∷ "prn" ∷ "aux" ∷ "nul" ∷ "conin$" ∷ "conout$" ∷ "com0" ∷ "com1" ∷ "com2" ∷ "com3"
    ∷ "com4" ∷ "com5" ∷ "com6" ∷ "com7" ∷ "com8" ∷ "com9" ∷ "lpt0" ∷ "lpt1" ∷ "lpt2" ∷ "lpt3"
    ∷ "lpt4" ∷ "lpt5" ∷ "lpt6" ∷ "lpt7" ∷ "lpt8" ∷ "lpt9" ∷ [])

abbrev pub is_separator : ℕ → Bool
is_separator c = c == b'/' || c == 92

-- `_ILLEGAL_CHARS`
abbrev pub is_illegal : ℕ → Bool
is_illegal c =
    c == b'<'
    || c == b'>'
    || c == b':'
    || c == 34
    || c == 92
    || c == b'|'
    || c == b'?'
    || c == b'*'
    || leb c 31

abbrev pub is_dot : ℕ → Bool
is_dot c = c == b'.'

abbrev pub is_dot_or_space : ℕ → Bool
is_dot_or_space c = c == b'.' || c == b' '

-- What follows the last separator.
unfoldable pub basename : Name → Name
basename [] = []
basename (c ∷ s) = let rest = basename s in if any is_separator (c ∷ s) then rest else c ∷ s

abbrev pub underscored : ℕ → ℕ
underscored c = if is_illegal c then b'_' else c

-- `name.partition(".")`, the dot with what follows it
abbrev pub stem_of : Name → Name
stem_of [] = []
stem_of (c ∷ s) = let rest = stem_of s in if is_dot c then [] else c ∷ rest

abbrev pub dotted_rest : Name → Name
dotted_rest [] = []
dotted_rest (c ∷ s) = let rest = dotted_rest s in if is_dot c then c ∷ s else rest

-- `str.lower()`, on the letters that a reserved name has
abbrev pub lowered : ℕ → ℕ
lowered c = if leb b'A' c && leb c b'Z' then c + 32 else c

abbrev pub is_reserved : Name → Bool
is_reserved stem = any (λ r. same_codes r (map lowered stem)) reserved_stems

-- The bytes of a code point in UTF-8; a surrogate is left out.
abbrev pub utf8_size : ℕ → ℕ
utf8_size c =
    if ltb c 0x80
    then 1
    else if ltb c 0x800
    then 2
    else if leb 0xd800 c && leb c 0xdfff
    then 0
    else if ltb c 0x10000
    then 3
    else 4

abbrev pub utf8_length : Name → ℕ
utf8_length [] = 0
utf8_length (c ∷ s) = utf8_size c + utf8_length s

-- `s.encode("utf-8", "ignore")[:room]`, decoded again
abbrev pub utf8_prefix : ℕ → Name → Name
utf8_prefix room [] = []
utf8_prefix room (c ∷ s) =
    let rest = utf8_prefix (room - utf8_size c) s in
    if utf8_size c == 0 then rest else if ltb room (utf8_size c) then [] else c ∷ rest

-- The bytes that `s.encode(...)[:room]` has, a broken code point at its end included.
abbrev pub min_nat : ℕ → ℕ → ℕ
min_nat a b = if leb a b then a else b

abbrev pub capped : Name → Name → Name
capped stem ext =
    let room = max_name_bytes - min_nat (utf8_length ext) 100 in
    rstrip is_dot_or_space (utf8_prefix room stem ++ utf8_prefix 100 ext)

abbrev pub unreserved : Name → Name
unreserved stem = if is_reserved stem then stem ++ codes "_file" else stem

abbrev pub within_bytes : Name → Name → Name
within_bytes stem ext =
    if ltb max_name_bytes (utf8_length (stem ++ ext)) then capped stem ext else stem ++ ext

abbrev pub or_upload : Name → Name
or_upload [] = codes "upload"
or_upload (c ∷ s) = c ∷ s

abbrev pub trimmed : Name → Name
trimmed name = rstrip is_dot_or_space (lstrip is_dot name)

-- The name, without the mark for a rewritten one.
unfoldable pub safe_name : Name → Name
unfolding basename
safe_name raw =
    let name = trimmed (map underscored (basename raw)) in
    or_upload (within_bytes (unreserved (stem_of name)) (dotted_rest name))
