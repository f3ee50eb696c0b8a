-- ===== src/PendingPlans/Slots.antt =====
-- The keys of services/pending_plans.py, `(user_id, chat_id or "_nochat")`, and Python's dict on them.
use core_heartbeat.Prelude.{
  String, ◌≡◌, ◌↔◌, refl, ap, Bool, true, ◌&&◌, Option, none, some, List, [], ◌∷◌, arith, str_eq,
  eq_iff, if◌then◌else◌,
}

pub record Key : Type 0 where
  pub user : String
  pub chat : String

abbrev pub no_chat : String
no_chat = "_nochat"

-- `chat_id or "_nochat"`: an absent and an empty chat id share one slot.
abbrev pub chat_slot : Option String → String
chat_slot none = no_chat
chat_slot (some chat) = if str_eq chat "" then no_chat else chat

abbrev pub key : String → Option String → Key
key user chat = record { user = user; chat = chat_slot chat }

abbrev pub same_key : Key → Key → Bool
same_key k j = str_eq k.user j.user && str_eq k.chat j.chat

abbrev pub Dict : Type 0 → Type 0
Dict V = List (Key × V)

module _ {V : Type 0} where
  -- d.get(k)
  unfoldable pub lookup : Key → Dict V → Option V
  lookup k [] = none
  lookup k ((j, v) ∷ d) = if same_key j k then some v else lookup k d

  -- d.pop(k, None)
  unfoldable pub without : Key → Dict V → Dict V
  without k [] = []
  without k ((j, v) ∷ d) = let rest = without k d in if same_key j k then rest else (j, v) ∷ rest

  -- d[k] = v
  unfoldable pub put : Key → V → Dict V → Dict V
  put k v d = (k, v) ∷ without k d

pub same_key_iff : (k j : Key) → (same_key k j ≡ true) ↔ (k ≡ j)
same_key_iff k j = (
  ground (arith, eq_iff k.user j.user, eq_iff k.chat j.chat),
  λ p. ground (
    arith,
    eq_iff k.user j.user,
    eq_iff k.chat j.chat,
    ap (λ (i : Key). i.user) p,
    ap (λ (i : Key). i.chat) p,
  ),
)

pub same_key_refl : (k : Key) → same_key k k ≡ true
same_key_refl k = (same_key_iff k k).1 refl

module _ {V : Type 0} where
  pub lookup-without :
      (k j : Key) (d : Dict V)
      → lookup j (without k d) ≡ (if same_key k j then none else lookup j d)
  unfolding lookup without
  lookup-without k j [] = ground arith
  lookup-without k j ((i, v) ∷ d) = ground (
    arith,
    lookup-without k j d,
    eq_iff i.user k.user,
    eq_iff i.user j.user,
    eq_iff k.user j.user,
    eq_iff i.chat k.chat,
    eq_iff i.chat j.chat,
    eq_iff k.chat j.chat,
  )

  pub lookup-put :
      (k j : Key) (v : V) (d : Dict V)
      → lookup j (put k v d) ≡ (if same_key k j then some v else lookup j d)
  unfolding lookup put
  lookup-put k j v d = ground (arith, lookup-without k j d)

pub ruleset dict_laws = (lookup-without, lookup-put)
