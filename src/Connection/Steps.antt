-- ===== src/Connection/Steps.antt =====
-- One step on the map of conversations: a change of one conversation, or of each.
use convos.Prelude.{◌≡◌, subst, Text, [], ◌∷◌, Option, none, some, string_eq, arith, All}
use convos.Prelude.Dict.{Dict, get, set-Distinct, Distinct}
use convos.Conversation.{Conversation}
use convos.Connection.{Connection, find_conversation, put}
use convos.Connection.Handlers.{each, change}
use convos.Connection.Kept.{HasId}
use convos.Connection.Ensure.{IsOwn, IsValid, All-set, own_id}

-- No exception, and a valid connection.
abbrev pub HasValid : Option Connection → Type 0
HasValid none = ⊥
HasValid (some d) = IsValid d

-- `f` keeps the id of a conversation, and does not throw.
abbrev pub Keeps : (Conversation → Option Conversation) → Type 0
Keeps f = (conv : Conversation) → HasId conv.conversation_id (f conv)

pub bind-HasValid :
    (o : Option Connection) (f : Connection → Option Connection)
    → HasValid o
    → ((d : Connection) → IsValid d → HasValid (f d))
    → HasValid (elim o [ none ↦ none | some d ↦ f d ])
bind-HasValid none f h k = h
bind-HasValid (some d) f h k = k d h

pub put-IsValid :
    (id : Text) (conv : Conversation) (c : Connection)
    → conv.conversation_id ≡ id
    → IsValid c
    → IsValid (put id conv c)
put-IsValid id conv c e v = record {
  distinct = set-Distinct id conv c.conversations v.distinct;
  own = All-set id conv c.conversations e v.own;
}

pub put-HasValid :
    (id : Text) (o : Option Conversation) (c : Connection)
    → HasId id o
    → IsValid c
    → HasValid (elim o [ none ↦ none | some d ↦ some (put id d c) ])
put-HasValid id none c h v = h
put-HasValid id (some d) c h v = put-IsValid id d c h v

pub change-HasValid :
    (id : Text) (f : Conversation → Option Conversation) (conv : Conversation) (c : Connection)
    → Keeps f
    → find_conversation id c ≡ some conv
    → IsValid c
    → HasValid (change id f c)
change-HasValid id f conv c k there v =
    rw (there, HasValid, change)
      (put-HasValid id (f conv) c
        (subst (λ i. HasId i (f conv)) (own_id id c.conversations conv v.own there) (k conv)) v)

abbrev pub IsEach : Dict Text Conversation → Option (Dict Text Conversation) → Type 0
IsEach m none = ⊥
IsEach m (some n) = Distinct n × All IsOwn n × ((k : Text) → get k m ≡ none → get k n ≡ none)

IsEach-step :
    (id : Text) (conv : Conversation) (m : Dict Text Conversation) (o : Option Conversation)
    (rest : Option (Dict Text Conversation))
    → get id m ≡ none
    → HasId id o
    → IsEach m rest
    → IsEach
        ((id, conv) ∷ m)
        (elim o [ none ↦ none | some d ↦ elim rest [ none ↦ none | some n ↦ some ((id, d) ∷ n) ] ])
unfolding get
IsEach-step id conv m none rest g h r = h
IsEach-step id conv m (some d) none g h r = r
IsEach-step id conv m (some d) (some n) g h (distinct, own, out) =
    ((out id g, distinct), (h, own), λ k e. ground (arith, out k))

pub each-IsEach :
    (f : Conversation → Option Conversation) (m : Dict Text Conversation)
    → Keeps f
    → Distinct m
    → All IsOwn m
    → IsEach m (each f m)
unfolding each
each-IsEach f [] k d a = (tt, tt, λ j e. e)
each-IsEach f ((id, conv) ∷ m) k d a =
    IsEach-step id conv m (f conv) (each f m) d.0 (subst (λ i. HasId i (f conv)) a.0 (k conv))
      (each-IsEach f m k d.1 a.1)

pub each-HasValid :
    (f : Conversation → Option Conversation) (c : Connection)
    → Keeps f
    → IsValid c
    → HasValid (elim (each f c.conversations) [
      | none ↦ none
      | some m ↦ some (record c { conversations = m })
    ])
each-HasValid f c k v =
    from (each f c.conversations) (each-IsEach f c.conversations k v.distinct v.own)
  where
    from :
        (o : Option (Dict Text Conversation))
        → IsEach c.conversations o
        → HasValid (elim o [ none ↦ none | some m ↦ some (record c { conversations = m }) ])
    from none h = h
    from (some m) (distinct, own, out) = record { distinct = distinct; own = own }
