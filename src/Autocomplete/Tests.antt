-- ===== src/Autocomplete/Tests.antt =====
-- Words and options.
use convos.Prelude.{
  ℕ, ◌≡◌, refl, true, false, Text, codes, text_eq, List, [], ◌∷◌, ◌++◌, none, some, take, map,
  filter, length,
}
use convos.Host.{ascii_host}
use convos.Conversation.{Conversation}
use convos.Connection.{Page, new_conversation, with_id}
use convos.Autocomplete.{
  FillParams, fill_in, split_word, category, nicks, offer_conversations, offer_emojis, offer_nicks,
  is_offered, choice,
}
use convos.Autocomplete.Filling.{IsGap, fill_in-keeps}
use convos.Autocomplete.Options.{offers_lem, nick_choice}

abbrev typed : FillParams
typed = record {
  value = codes "hey sup ";
  cursor_pos = 7;
  append = false;
  pad_before = true;
  pad_after = true;
  replace = false;
}

inserted :
    fill_in (some (codes "superman")) typed
    ≡ record { before = codes "hey sup"; middle = codes " superman "; after = [] }
unfolding fill_in
inserted = refl

replaced :
    fill_in (some (codes "superman")) (record typed { replace = true; pad_before = false })
    ≡ record { before = codes "hey "; middle = codes "superman "; after = [] }
unfolding fill_in convos.Prelude.Chars.is_space
replaced = refl

kind : category (split_word (codes "hey @su")).0 (split_word (codes "hey @su")).1 ≡ nicks
unfolding category split_word convos.Prelude.Chars.is_space
kind = refl

fill_in-keeps_example :
    let r = fill_in (some (codes "superman")) typed in
    (left : Text) × (right : Text) × (codes "hey sup " ≡ r.before ++ (left ++ (right ++ r.after)))
    × IsGap 2 left
    × IsGap 1 right
fill_in-keeps_example = fill_in-keeps (codes "superman") typed refl

abbrev page : Page
page = record { last_id = 0; raw = false; want_notifications = λ id. none }

abbrev talks : List Conversation
talks =
    map (λ id. new_conversation page (codes "irc-libera") (with_id id))
      (codes "#convos" ∷ codes "batman" ∷ [])

offers_lem_example :
    (offer_conversations ascii_host (codes "#") talks []
      ≡ take 20 (map choice (filter (is_offered ascii_host (codes "#")) talks)))
    × (offer_emojis [] [] ≡ take 30 [])
    × (offer_nicks (text_eq (codes "b")) (codes "a" ∷ codes "b" ∷ []) []
        ≡ take 20 (map nick_choice (filter (text_eq (codes "b")) (codes "a" ∷ codes "b" ∷ []))))
offers_lem_example =
    offers_lem ascii_host (codes "#") (text_eq (codes "b")) talks [] (codes "a" ∷ codes "b" ∷ [])
