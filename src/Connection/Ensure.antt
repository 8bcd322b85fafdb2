-- ===== src/Connection/Ensure.antt =====
-- What `ensureConversation` does: it never throws, and afterwards the conversation is there.
use convos.Prelude.{
  ℕ, ◌≡◌, refl, ◌∙◌, sym, subst, Bool, true, false, not, Text, text_eq, text_eq_iff, text_eq_refl,
  [], ◌∷◌, ◌++◌, Option, none, some, if◌then◌else◌, is_empty, get_or, Bool-cases, Option-cases, inl,
  inr, string_eq, arith, All, append-nil,
}
use convos.Prelude.Dict.{Dict, get, set, delete, get-set, get-set_self, Distinct, set-Distinct}
use convos.Host.{Host}
use convos.Participants.{Participants, add_all}
use convos.Conversation.{Conversation, load_information, is_private}
use convos.SortedMap
use convos.SortedMap.Lookup.{get-set_sorted}
use convos.Connection.{
  Params, Connection, Page, update, new_conversation, comes_after, default_participants, populated,
  inherited, add_conversation, ensure_conversation, find_conversation, put, added,
}
use convos.Connection.Kept.{HasId}

abbrev IsThere : Option Participants → Type 0
IsThere none = ⊥
IsThere (some ps) = Unit

with_participants-HasId :
    (conv : Conversation) (o : Option Participants)
    → IsThere o
    → HasId conv.conversation_id
        (elim o [ none ↦ none | some ps ↦ some (record conv { participants = ps }) ])
with_participants-HasId conv none h = h
with_participants-HasId conv (some ps) h = refl

module _ (host : Host) where
  default_participants-IsThere :
      (ps : Participants) (nick : Text) (conv : Conversation)
      → IsThere (add_all host ps (default_participants nick conv))
  unfolding default_participants add_all
  default_participants-IsThere ps nick conv = elim (Bool-cases (is_private conv)) [
    | inl one ↦ rw (one, default_participants) tt
    | inr many ↦ rw (many, default_participants) tt
  ]

  pub populated-HasId :
      (nick : Text) (is_frozen : Bool) (conv : Conversation)
      → HasId conv.conversation_id (populated host nick is_frozen conv)
  unfolding populated
  populated-HasId nick true conv = refl
  populated-HasId nick false conv =
      with_participants-HasId conv (add_all host conv.participants (default_participants nick conv))
        (default_participants-IsThere conv.participants nick conv)

-- The ids of the map are distinct, and each conversation is stored under its own.
abbrev pub IsOwn : Text × Conversation → Type 0
IsOwn e = e.1.conversation_id ≡ e.0

pub record IsValid (c : Connection) : Type 0 where
  pub distinct : Distinct c.conversations
  pub own : All IsOwn c.conversations

pub All-set :
    (id : Text) (conv : Conversation) (m : Dict Text Conversation)
    → conv.conversation_id ≡ id
    → All IsOwn m
    → All IsOwn (set id conv m)
unfolding set
All-set id conv [] e a = (e, tt)
All-set id conv ((i, w) ∷ m) e a = ground (arith, text_eq_iff i id, All-set id conv m e a.1)

pub All-delete : (id : Text) (m : Dict Text Conversation) → All IsOwn m → All IsOwn (delete id m)
unfolding delete
All-delete id [] a = tt
All-delete id ((i, w) ∷ m) a = ground (arith, All-delete id m a.1)

pub own_id :
    (id : Text) (m : Dict Text Conversation) (conv : Conversation)
    → All IsOwn m
    → get id m ≡ some conv
    → conv.conversation_id ≡ id
unfolding get
own_id id [] conv a h = cc
own_id id ((i, w) ∷ m) conv a h = ground (arith, text_eq_iff i id, own_id id m conv a.1)

All-insert :
    (gt : Conversation → Conversation → Bool) (id : Text) (conv : Conversation)
    (m : Dict Text Conversation)
    → conv.conversation_id ≡ id
    → All IsOwn m
    → All IsOwn (SortedMap.insert gt (id, conv) m)
unfolding SortedMap.insert
All-insert gt id conv [] e a = (e, tt)
All-insert gt id conv ((i, w) ∷ m) e a = ground (arith, All-insert gt id conv m e a.1)

All-sort :
    (gt : Conversation → Conversation → Bool) (m : Dict Text Conversation)
    → All IsOwn m
    → All IsOwn (SortedMap.sort gt m)
unfolding SortedMap.sort
All-sort gt [] a = tt
All-sort gt ((i, w) ∷ m) a = All-insert gt i w (SortedMap.sort gt m) a.0 (All-sort gt m a.1)

update-id :
    (now : ℕ) (p : Params) (conv : Conversation)
    → (update now p conv).conversation_id ≡ conv.conversation_id
unfolding update load_information
update-id now p conv = refl

new_conversation-id :
    (page : Page) (id : Text) (p : Params)
    → (new_conversation page id p).conversation_id ≡ p.conversation_id
unfolding new_conversation
new_conversation-id page id p = refl

inherited-id :
    (l : Text → Text) (p : Params) (c : Connection)
    → (inherited l p c).conversation_id ≡ p.conversation_id
unfolding inherited
inherited-id l p c = ground arith

-- `conv` is what `ensureConversation` gives, and `d` the connection after it.
abbrev pub Ensures : ℕ → Params → Text → Connection → Connection → Conversation → Type 0
Ensures now p other c d conv =
    IsValid d
    × (find_conversation p.conversation_id d ≡ some conv)
    × (conv ≡ (elim (find_conversation p.conversation_id c) [
      | none ↦ conv
      | some old ↦ update now p old
    ]))
    × (find_conversation other d
        ≡ (if text_eq p.conversation_id other then some conv else find_conversation other c))
    × (d.out
        ≡ c.out ++ (elim (find_conversation p.conversation_id c) [
          | none ↦ added p.conversation_id ∷ []
          | some old ↦ []
        ]))

module _ (host : Host) (now : ℕ) (page : Page) (l : Text → Text) where
  -- What `add_conversation` makes of the new conversation `o` under the id `j`.
  abbrev Adds : Params → Text → Connection → Option Conversation → Text → Type 0
  Adds p other c o j =
      (d : Connection) × (conv : Conversation) × ((elim o [
        | none ↦ none
        | some conv ↦ some (record c {
          conversations = SortedMap.set (comes_after host) j conv c.conversations;
          out = c.out ++ added j ∷ [];
        })
      ])
        ≡ some d)
      × Ensures now p other c d conv

  added-Ensures :
      (p : Params) (other : Text) (c : Connection) (o : Option Conversation)
      → IsValid c
      → find_conversation p.conversation_id c ≡ none
      → HasId p.conversation_id o
      → Adds p other c o p.conversation_id
  unfolding SortedMap.set
  added-Ensures p other c none v absent h = elim h [ ]
  added-Ensures p other c (some conv) v absent h =
      let k = p.conversation_id in
      let gt = comes_after host in
      let at = λ (j : Text). get-set_sorted gt j k conv c.conversations v.distinct in
      (
        _,
        conv,
        refl,
        (
          record {
            distinct = (at k).1;
            own = All-sort gt (set k conv c.conversations) (All-set k conv c.conversations h v.own);
          },
          (at k).0 ∙ rw (text_eq_refl k) refl,
          rw absent refl,
          (at other).0,
          rw absent refl,
        ),
      )

  updated-Ensures :
      (p : Params) (other : Text) (c : Connection) (old : Conversation)
      → IsValid c
      → find_conversation p.conversation_id c ≡ some old
      → Ensures now p other c (put p.conversation_id (update now p old) c) (update now p old)
  updated-Ensures p other c old v there =
      let k = p.conversation_id in
      let conv = update now p old in
      (
        record {
          distinct = set-Distinct k conv c.conversations v.distinct;
          own =
              All-set k conv c.conversations
                (update-id now p old ∙ own_id k c.conversations old v.own there) v.own;
        },
        get-set_self k conv c.conversations,
        rw there refl,
        get-set other k conv c.conversations,
        rw there (sym (append-nil c.out)),
      )

  new-Adds :
      (q p : Params) (other : Text) (c : Connection)
      → IsValid c
      → find_conversation p.conversation_id c ≡ none
      → q.conversation_id ≡ p.conversation_id
      → (d : Connection) × (conv : Conversation) × (add_conversation host now page l q c ≡ some d)
        × Ensures now p other c d conv
  unfolding add_conversation
  new-Adds q p other c v absent same =
      let bare = new_conversation page c.base.connection_id q in
      let is_frozen = not (is_empty (get_or q.frozen [])) in
      let o = populated host c.nick is_frozen bare in
      subst (Adds p other c o) (sym same) (
        added-Ensures p other c o v absent (
          subst (λ i. HasId i o) (new_conversation-id page c.base.connection_id q ∙ same)
            (populated-HasId host c.nick is_frozen bare)))

  -- `ensureConversation(params)` on a connection whose map is keyed by the ids never throws, and keeps
  -- the map so. Under the given id there is then a conversation, which is the one that was there before
  -- with its fields updated, if there was one, and else a new one, which is announced; under every
  -- other id there is what was there before.
  pub ensure_conversation_lem :
      (p : Params) (other : Text) (c : Connection)
      → IsValid c
      → (d : Connection) × (conv : Conversation) × (ensure_conversation host now page l p c
          ≡ some d)
        × Ensures now p other c d conv
  unfolding ensure_conversation add_conversation
  ensure_conversation_lem p other c v =
      elim (Option-cases (find_conversation p.conversation_id c)) [
        | inr (old, there) ↦ (
          put p.conversation_id (update now p old) c,
          update now p old,
          rw (there, ensure_conversation) refl,
          updated-Ensures p other c old v there,
        )
        | inl absent ↦
            let (d, conv, e, rest) =
              new-Adds (inherited l p c) p other c v absent (inherited-id l p c) in
            (d, conv, rw (absent, ensure_conversation) e, rest)
      ]
