-- ===== src/User/Unread.antt =====
-- assets/store/User.js: `_calculateUnread`.
use convos.Prelude.{
  ℕ, ◌+◌, ◌≡◌, refl, Bool, true, false, not, Text, List, [], ◌∷◌, ◌++◌, if◌then◌else◌, filter,
  arith, Bool-cases, inl, inr, string_eq,
}
use convos.Prelude.Dict
use convos.Prelude.Dict.{Dict, set}
use convos.Conversation.{Conversation, emits_unread, is_private}
use convos.Connection.{Connection}
use convos.User.{User, conversations, conversations_of}

-- What one conversation adds to the two counters.
unfoldable pub notifications_of : Bool → Conversation → ℕ
unfolding is_private
notifications_of include conv =
    if is_private conv then (if include then conv.unread else 0) else conv.notifications

unfoldable pub unread_of : Conversation → ℕ
unfolding is_private
unread_of conv = if is_private conv then 0 else conv.notifications

-- The two loops, with the counters so far.
unfoldable pub count_conversations : Bool → Dict Text Conversation → ℕ × ℕ → ℕ × ℕ
unfolding notifications_of unread_of
count_conversations include [] (n, m) = (n, m)
count_conversations include ((id, conv) ∷ rest) (n, m) =
    count_conversations include rest (n + notifications_of include conv, m + unread_of conv)

unfoldable pub count : Bool → Dict Text Connection → ℕ × ℕ → ℕ × ℕ
unfolding count_conversations
count include [] totals = totals
count include ((id, c) ∷ rest) totals =
    count include rest (count_conversations include c.conversations totals)

-- `_calculateUnread()`
unfoldable pub calculate_unread : User → User
unfolding count
calculate_unread u =
    let totals = count u.unread_include_private_messages u.connections (0, 0) in
    record u {
      notifications = record u.notifications { notifications = totals.0; unread = totals.1 };
    }

-- `_calculateUnread('clear')` on a conversation, a connection and all of them; the counters of the
-- notifications are left as they are.
abbrev pub cleared : Conversation → Conversation
cleared conv = record conv { notifications = 0; out = conv.out ++ emits_unread ∷ [] }

unfoldable pub clear_conversations : Dict Text Conversation → Dict Text Conversation
clear_conversations [] = []
clear_conversations ((id, conv) ∷ rest) = (id, cleared conv) ∷ clear_conversations rest

unfoldable pub clear_connections : Dict Text Connection → Dict Text Connection
unfolding clear_conversations
clear_connections [] = []
clear_connections ((id, c) ∷ rest) =
    (id, record c { conversations = clear_conversations c.conversations }) ∷ clear_connections rest

unfoldable pub calculate_unread_clear : User → User
unfolding clear_connections
calculate_unread_clear u = record u { connections = clear_connections u.connections }

-- The sums over all conversations.
unfoldable pub total : (Conversation → ℕ) → List Conversation → ℕ
total f [] = 0
total f (conv ∷ list) = f conv + total f list

total-append :
    (f : Conversation → ℕ) (a b : List Conversation) → total f (a ++ b) ≡ total f a + total f b
unfolding total
total-append f [] b = omega arith
total-append f (conv ∷ a) b = omega (arith, total-append f a b)

count_conversations_lem :
    (include : Bool) (m : Dict Text Conversation) (a b : ℕ)
    → (let r = count_conversations include m (a, b) in
        (r.0 ≡ a + total (notifications_of include) (Dict.values m))
        × (r.1 ≡ b + total unread_of (Dict.values m)))
unfolding count_conversations total
count_conversations_lem include [] a b = (omega arith, omega arith)
count_conversations_lem include ((id, conv) ∷ rest) a b =
    let r =
      count_conversations_lem include rest (a + notifications_of include conv)
        (b + unread_of conv) in
    (omega (arith, r.0), omega (arith, r.1))

count_lem :
    (include : Bool) (m : Dict Text Connection) (a b : ℕ)
    → (let r = count include m (a, b) in
        (r.0 ≡ a + total (notifications_of include) (conversations_of m))
        × (r.1 ≡ b + total unread_of (conversations_of m)))
unfolding count conversations_of total
count_lem include [] a b = (omega arith, omega arith)
count_lem include ((id, c) ∷ rest) a b =
    let mid = count_conversations include c.conversations (a, b) in
    let s = count_conversations_lem include c.conversations a b in
    let r = count_lem include rest mid.0 mid.1 in
    (
      omega (
        arith,
        r.0,
        s.0,
        total-append (notifications_of include) (Dict.values c.conversations)
            (conversations_of rest),
      ),
      omega (
        arith,
        r.1,
        s.1,
        total-append unread_of (Dict.values c.conversations) (conversations_of rest),
      ),
    )

total-channels :
    (list : List Conversation)
    → total unread_of list
      ≡ total (λ conv. conv.notifications) (filter (λ conv. not (is_private conv)) list)
unfolding total unread_of
total-channels [] = refl
total-channels (conv ∷ list) = elim (Bool-cases (is_private conv)) [
  | inl e ↦ rw (e, total, unread_of) (omega (arith, total-channels list))
  | inr e ↦ rw (e, total, unread_of) (omega (arith, total-channels list))
]

total-private :
    (include : Bool) (list : List Conversation)
    → total (notifications_of include) list
      ≡ total unread_of list
        + (if include then total (λ conv. conv.unread) (filter is_private list) else 0)
unfolding total notifications_of unread_of
total-private true [] = refl
total-private false [] = refl
total-private true (conv ∷ list) = elim (Bool-cases (is_private conv)) [
  | inl e ↦ rw (e, total, unread_of, notifications_of) (omega (arith, total-private true list))
  | inr e ↦ rw (e, total, unread_of, notifications_of) (omega (arith, total-private true list))
]
total-private false (conv ∷ list) = elim (Bool-cases (is_private conv)) [
  | inl e ↦ rw (e, total, unread_of, notifications_of) (omega (arith, total-private false list))
  | inr e ↦ rw (e, total, unread_of, notifications_of) (omega (arith, total-private false list))
]

-- The loops of `_calculateUnread` give two sums over the list of all conversations: `unread` is the sum
-- of the notifications of those that are not private, and `notifications` is that and, when private
-- messages are included, the unread messages of the private ones.
pub calculate_unread_lem :
    (u : User)
    → let d = calculate_unread u in
      (d.notifications.unread
        ≡ total (λ conv. conv.notifications) (conversations (λ conv. not (is_private conv)) u))
      × (d.notifications.notifications
          ≡ d.notifications.unread
            + (if u.unread_include_private_messages
                then total (λ conv. conv.unread) (conversations is_private u)
                else 0))
unfolding calculate_unread conversations
calculate_unread_lem u =
    let include = u.unread_include_private_messages in
    let all = conversations_of u.connections in
    let sums = count_lem include u.connections 0 0 in
    (
      omega (arith, sums.1, total-channels all),
      omega (arith, sums.0, sums.1, total-private include all),
    )
