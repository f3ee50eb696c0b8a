-- ===== src/Vault/Apart.antt =====
-- The vaults of two users of tools/user_vault.py.
use mathlib.Core.Path.{subst}
use core_heartbeat.Prelude.{
  ◌≡◌, refl, true, false, ◌==◌, some, [], ◌∷◌, ◌++◌, arith, drop, length, and_both, append_assoc,
  Bool-cases, inl, inr, ap, same_codes,
}
use core_heartbeat.Vault.{
  PathText, Files, separator, starts_with, has_code, is_valid_user, user_dir,
}

-- Two names without a separator that both head one path, each before a separator, are one name.
same_head :
    (u v rest : PathText)
    → has_code b'/' u ≡ false
    → has_code b'/' v ≡ false
    → starts_with (u ++ separator) rest ≡ true
    → starts_with (v ++ separator) rest ≡ true
    → u ≡ v
same_head [] [] rest a b h k = refl
same_head [] (y ∷ v) [] a b h k = ground arith
same_head [] (y ∷ v) (r ∷ rest) a b h k = ground arith
same_head (x ∷ u) [] [] a b h k = ground arith
same_head (x ∷ u) [] (r ∷ rest) a b h k = ground arith
same_head (x ∷ u) (y ∷ v) [] a b h k = ground arith
same_head (x ∷ u) (y ∷ v) (r ∷ rest) a b h k = ground (arith, same_head u v rest)

-- What follows a prefix of a path.
starts_with-drop :
    (t a path : PathText)
    → starts_with (t ++ a) path ≡ true
    → starts_with a (drop (length t) path) ≡ true
starts_with-drop [] a path h = h
starts_with-drop (x ∷ t) a [] h = ground arith
starts_with-drop (x ∷ t) a (y ∷ path) h = starts_with-drop t a path (and_both (x == y) _ h).1

valid_name :
    (fs : Files) (user base : PathText) → user_dir fs user ≡ some base → has_code b'/' user ≡ false
unfolding user_dir is_valid_user
valid_name fs user base e = ground arith

below :
    (head user path : PathText)
    → starts_with ((head ++ user) ++ separator) path ≡ true
    → starts_with (user ++ separator) (drop (length head) path) ≡ true
below head user path h =
    starts_with-drop head (user ++ separator) path
      (subst (λ p. starts_with p path ≡ true) (append_assoc head user separator) h)

same_codes_refl : (s : PathText) → same_codes s s ≡ true
same_codes_refl [] = refl
same_codes_refl (c ∷ s) = ground (arith, same_codes_refl s)

-- Where the vault directories are no links, so that the real path of each is one common head
-- followed by the user's id, a path below the vault of one user is not below that of another: the
-- vaults of different users share no file.
pub vaults_apart :
    (fs : Files) (head u v path : PathText)
    → user_dir fs u ≡ some (head ++ u)
    → user_dir fs v ≡ some (head ++ v)
    → same_codes u v ≡ false
    → starts_with ((head ++ u) ++ separator) path ≡ true
    → starts_with ((head ++ v) ++ separator) path ≡ false
vaults_apart fs head u v path du dv other pu =
    elim (Bool-cases (starts_with ((head ++ v) ++ separator) path)) [
      | inl pv ↦
          let same =
            same_head u v (drop (length head) path) (valid_name fs u (head ++ u) du)
              (valid_name fs v (head ++ v) dv) (below head u path pu) (below head v path pv) in
          ground (arith, other, ap (same_codes u) same, same_codes_refl u)
      | inr apart ↦ apart
    ]
