-- ===== src/Autocomplete/Options.antt =====
-- The loops over the options as prefixes of filtered lists.
use convos.Prelude.{
  ℕ, zero, suc, ◌+◌, ◌≤◌, ◌<◌, ◌≡◌, refl, ◌∙◌, sym, Bool, true, false, Text, List, [], ◌∷◌, ◌++◌,
  length, take, leb, map, filter, none, length-append, append_assoc, append-nil, arith, Bool-cases,
  inl, inr,
}
use convos.Host.{Host}
use convos.Conversation.{Conversation}
use convos.Autocomplete.{Choice, choice, is_offered, offer_conversations, offer_emojis, offer_nicks}

-- One option more in front of the rest.
add_option :
    (opts : List Choice) (x : Choice) (rest : List Choice)
    → (opts ++ x ∷ []) ++ rest ≡ opts ++ x ∷ rest
add_option opts x rest = append_assoc opts (x ∷ []) rest

length-more : (opts : List Choice) (x : Choice) → length (opts ++ x ∷ []) ≡ suc (length opts)
length-more opts x = omega (arith, length-append opts (x ∷ []))

full : (n m : ℕ) → m ≤ n → leb m n ≡ true
full n m h = ground arith

room : (n m : ℕ) → n < m → leb m n ≡ false
room n m h = ground arith

-- A loop ends when it has twenty.
pub last_one :
    (n : ℕ) (opts : List Choice) (x : Choice)
    → length opts + 1 ≡ n
    → leb n (length (opts ++ x ∷ [])) ≡ true
last_one n opts x h = full (length (opts ++ x ∷ [])) n (omega (arith, h, length-more opts x))

pub not_last :
    (n k : ℕ) (opts : List Choice) (x : Choice)
    → length opts + suc (suc k) ≡ n
    → leb n (length (opts ++ x ∷ [])) ≡ false
not_last n k opts x h = room (length (opts ++ x ∷ [])) n (omega (arith, h, length-more opts x))

module _ (host : Host) where
  offer_conversations-room :
      (query : Text) (list : List Conversation) (opts : List Choice) (k : ℕ)
      → length opts + suc k ≡ 20
      → offer_conversations host query list opts
        ≡ opts ++ take (suc k) (map choice (filter (is_offered host query) list))
  unfolding offer_conversations
  offer_conversations-room query [] opts k h = sym (append-nil opts)
  offer_conversations-room query (conv ∷ list) opts zero h =
      elim (Bool-cases (is_offered host query conv)) [
        | inr skipped ↦
            rw (skipped, offer_conversations) (offer_conversations-room query list opts zero h)
        | inl offered ↦ rw (offered, offer_conversations, last_one 20 opts (choice conv) h) refl
      ]
  offer_conversations-room query (conv ∷ list) opts (suc k) h =
      elim (Bool-cases (is_offered host query conv)) [
        | inr skipped ↦
            rw (skipped, offer_conversations) (offer_conversations-room query list opts (suc k) h)
        | inl offered ↦
            rw (offered, offer_conversations, not_last 20 k opts (choice conv) h)
              (offer_conversations-room query list (opts ++ choice conv ∷ []) k
                  (omega (arith, h, length-more opts (choice conv)))
                ∙ add_option opts (choice conv)
                    (take (suc k) (map choice (filter (is_offered host query) list))))
      ]

offer_emojis-room :
    (list opts : List Choice) (k : ℕ)
    → length opts + suc k ≡ 30
    → offer_emojis list opts ≡ opts ++ take (suc k) list
unfolding offer_emojis
offer_emojis-room [] opts k h = sym (append-nil opts)
offer_emojis-room (x ∷ list) opts zero h = rw (offer_emojis, last_one 30 opts x h) refl
offer_emojis-room (x ∷ list) opts (suc k) h =
    rw (offer_emojis, not_last 30 k opts x h)
      (offer_emojis-room list (opts ++ x ∷ []) k (omega (arith, h, length-more opts x))
        ∙ add_option opts x (take (suc k) list))

abbrev pub nick_choice : Text → Choice
nick_choice nick = record { text = none; val = nick }

-- The loop over nicks looks at the number before it adds one.
offer_nicks-room :
    (matches : Text → Bool) (list : List Text) (opts : List Choice) (k : ℕ)
    → length opts + k ≡ 20
    → offer_nicks matches list opts ≡ opts ++ take k (map nick_choice (filter matches list))
unfolding offer_nicks
offer_nicks-room matches [] opts zero h = sym (append-nil opts)
offer_nicks-room matches [] opts (suc k) h = sym (append-nil opts)
offer_nicks-room matches (nick ∷ list) opts zero h =
    rw (offer_nicks, full (length opts) 20 (omega (arith, h))) (sym (append-nil opts))
offer_nicks-room matches (nick ∷ list) opts (suc k) h = elim (Bool-cases (matches nick)) [
  | inr skipped ↦
      rw (skipped, offer_nicks, room (length opts) 20 (omega (arith, h)))
        (offer_nicks-room matches list opts (suc k) h)
  | inl offered ↦
      rw (offered, offer_nicks, room (length opts) 20 (omega (arith, h)))
        (offer_nicks-room matches list (opts ++ nick_choice nick ∷ []) k
            (omega (arith, h, length-more opts (nick_choice nick)))
          ∙ add_option opts (nick_choice nick) (take k (map nick_choice (filter matches list))))
]

-- The loops that stop at a number of options give the first 20 of the conversations that are offered,
-- the first 30 emojis, and the first 20 of the nicks that match, each in the order of its list.
pub offers_lem :
    (host : Host) (query : Text) (matches : Text → Bool) (convs : List Conversation)
    (emojis : List Choice) (nicks : List Text)
    → (offer_conversations host query convs []
        ≡ take 20 (map choice (filter (is_offered host query) convs)))
      × (offer_emojis emojis [] ≡ take 30 emojis)
      × (offer_nicks matches nicks [] ≡ take 20 (map nick_choice (filter matches nicks)))
offers_lem host query matches convs emojis nicks = (
  offer_conversations-room host query convs [] 19 refl,
  offer_emojis-room emojis [] 29 refl,
  offer_nicks-room matches nicks [] 20 refl,
)
