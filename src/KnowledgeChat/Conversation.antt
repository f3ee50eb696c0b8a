-- ===== src/KnowledgeChat/Conversation.antt =====
-- knowledge_chat.py `history_contents`: the order of the turns that the model is shown.
use core_heartbeat.Prelude.{
  ℕ, ◌≡◌, refl, sym, ap, true, false, Option, none, some, List, [], ◌∷◌, ◌++◌, if_cases, arith,
  is_space, strip, is_empty, last_of, append_assoc,
}
use core_heartbeat.KnowledgeChat.Text.{Text}
use core_heartbeat.KnowledgeChat.Lines.{blank_line}
use core_heartbeat.KnowledgeChat.World.{Role, user, model, Turn, Request}
use core_heartbeat.KnowledgeChat.History.{
  same_role, say, said_turn, prior_turns, from_user, history_turns,
}

abbrev pub other_role : Role → Role
other_role user = model
other_role model = user

-- The roles alternate, from a given one on.
abbrev pub AlternatesFrom : Role → List (Role × Text) → Type 0
AlternatesFrom r [] = Unit
AlternatesFrom r ((r', t) ∷ rest) = (same_role r r' ≡ true) × AlternatesFrom (other_role r) rest

abbrev pub last_turn : List (Role × Text) → Option (Role × Text)
last_turn [] = none
last_turn (x ∷ []) = some x
last_turn (x ∷ y ∷ rest) = last_turn (y ∷ rest)

same_role_refl : (r : Role) → same_role r r ≡ true
same_role_refl user = refl
same_role_refl model = refl

other-same :
    (r r' role : Role)
    → same_role r r' ≡ true
    → same_role r' role ≡ false
    → same_role (other_role r) role ≡ true
other-same user r' user a b = ground arith
other-same user r' model a b = refl
other-same model r' user a b = refl
other-same model r' model a b = ground arith

same_trans :
    (r r' role : Role) → same_role r r' ≡ true → same_role r' role ≡ true → same_role r role ≡ true
same_trans user user role a b = b
same_trans user model role a b = ground arith
same_trans model user role a b = ground arith
same_trans model model role a b = b

say-Alternates :
    (role : Role) (text : Text) (r : Role) (x : Role × Text) (xs : List (Role × Text))
    → AlternatesFrom r (x ∷ xs)
    → AlternatesFrom r (say role text (x ∷ xs))
unfolding say
say-Alternates role text r (r', t) [] (a, _) =
    if_cases (AlternatesFrom r) (same_role r' role) (λ same. (same_trans r r' role a same, tt))
      (λ differ. (a, (other-same r r' role a differ, tt)))
say-Alternates role text r x (y ∷ xs) (a, rest) =
    (a, say-Alternates role text (other_role r) y xs rest)

-- The roles alternate, whichever comes first.
abbrev Alternates : List (Role × Text) → Type 0
Alternates xs = (r : Role) × AlternatesFrom r xs

said_turn-Alternates :
    (xs : List (Role × Text)) (t : Turn) → Alternates xs → Alternates (said_turn xs t)
unfolding say
said_turn-Alternates [] t a =
    if_cases Alternates (is_empty (strip is_space t.content)) (λ _. a)
      (λ _. (t.role, (same_role_refl t.role, tt)))
said_turn-Alternates (x ∷ xs) t (r, a) =
    if_cases Alternates (is_empty (strip is_space t.content)) (λ _. (r, a))
      (λ _. (r, say-Alternates t.role (strip is_space t.content) r x xs a))

prior_turns-Alternates :
    (ts : List Turn) (xs : List (Role × Text)) → Alternates xs → Alternates (prior_turns xs ts)
unfolding prior_turns
prior_turns-Alternates [] xs a = a
prior_turns-Alternates (t ∷ ts) xs a =
    prior_turns-Alternates ts (said_turn xs t) (said_turn-Alternates xs t a)

from_user-Alternates :
    (xs : List (Role × Text)) (r : Role) → AlternatesFrom r xs → AlternatesFrom user (from_user xs)
unfolding from_user
from_user-Alternates [] r a = tt
from_user-Alternates ((user, t) ∷ xs) user a = a
from_user-Alternates ((user, t) ∷ xs) model (a, _) = ground arith
from_user-Alternates ((model, t) ∷ xs) r (a, rest) = from_user-Alternates xs (other_role r) rest

asked-Alternates :
    (text : Text) (xs : List (Role × Text))
    → AlternatesFrom user xs
    → AlternatesFrom user (say user text xs)
unfolding say
asked-Alternates text [] a = (refl, tt)
asked-Alternates text (x ∷ xs) a = say-Alternates user text user x xs a

-- The last turn is the role's, and its text ends with the one that was said.
abbrev pub EndsWith : Role → Text → Option (Role × Text) → Type 0
EndsWith role text o = (before : Text) × (o ≡ some (role, before ++ text))

EndsWith-later :
    (role : Role) (text : Text) (x : Role × Text) (xs : List (Role × Text))
    → EndsWith role text (last_turn xs)
    → EndsWith role text (last_turn (x ∷ xs))
EndsWith-later role text x [] (before, e) = ground arith
EndsWith-later role text x (y ∷ xs) h = h

say-EndsWith :
    (role : Role) (text : Text) (xs : List (Role × Text))
    → EndsWith role text (last_turn (say role text xs))
unfolding say
say-EndsWith role text [] = ([], refl)
say-EndsWith role text ((r, t) ∷ []) =
    if_cases (λ ys. EndsWith role text (last_turn ys)) (same_role r role)
      (λ _. (t ++ blank_line, ap (λ s. some (role, s)) (sym (append_assoc t blank_line text))))
      (λ _. ([], refl))
say-EndsWith role text (x ∷ y ∷ xs) =
    EndsWith-later role text x (say role text (y ∷ xs)) (say-EndsWith role text (y ∷ xs))

-- Whatever the history is, the turns that the model is shown begin with one of the user's, the roles
-- alternate, and the last turn is the user's and ends with the question.
pub history_turns-Alternates :
    (limit : ℕ) (req : Request)
    → AlternatesFrom user (history_turns limit req)
      × EndsWith user (strip is_space req.text) (last_turn (history_turns limit req))
unfolding history_turns
history_turns-Alternates limit req =
    let (r, a) = prior_turns-Alternates (last_of limit req.history) [] (user, tt) in
    let asked = from_user (prior_turns [] (last_of limit req.history)) in
    (
      asked-Alternates (strip is_space req.text) asked
          (from_user-Alternates (prior_turns [] (last_of limit req.history)) r a),
      say-EndsWith user (strip is_space req.text) asked,
    )
