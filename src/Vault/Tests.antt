-- ===== src/Vault/Tests.antt =====
-- Witnesses of the theorems on tools/user_vault.py, on a disk of one note.
use core_heartbeat.Prelude.{ℕ, List, ◌≡◌, refl, true, some, [], ◌∷◌, ◌++◌, codes, false}
use core_heartbeat.Vault.{
  PathText, Files, user_dir, is_valid_user, read_note, write_note, search_vault, starts_with,
  separator,
}
use core_heartbeat.Vault.Contained.{AllContained, operations_contained}
use core_heartbeat.Vault.Apart.{vaults_apart}

abbrev vaults : PathText
vaults = codes "/v/"

-- A disk without links.
abbrev disk : Files
disk = record {
  root = codes "/v";
  join = λ a b. a ++ (codes "/" ++ b);
  realpath = λ p. p;
  dirname = λ p. codes "/v/ana";
  is_dir = λ p. true;
  read = λ p. some (codes "buy" ∷ codes "sell" ∷ []);
  write = λ p text. true;
  walk = λ p. (p, codes "n.md" ∷ codes "n.txt" ∷ []) ∷ [];
  found = λ query line. true;
}

operations_contained_example :
    AllContained disk (codes "ana") (read_note disk (codes "ana") (codes "n.md")).1
    × AllContained disk (codes "ana") (write_note disk (codes "ana") (codes "n.md") (codes "x")).1
    × AllContained disk (codes "ana") (search_vault disk (codes "ana") (codes "buy")).1
operations_contained_example =
    operations_contained disk (codes "ana") (codes "n.md") (codes "buy") (codes "x")

vaults_apart_example :
    starts_with ((vaults ++ codes "ben") ++ separator) (codes "/v/ana/n.md") ≡ false
unfolding user_dir is_valid_user
vaults_apart_example =
    vaults_apart disk vaults (codes "ana") (codes "ben") (codes "/v/ana/n.md") refl refl refl refl

abbrev hits : List (PathText × ℕ)
hits = (codes "/v/ana/n.md", 1) ∷ (codes "/v/ana/n.md", 2) ∷ []
