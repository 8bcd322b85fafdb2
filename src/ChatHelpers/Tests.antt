-- ===== src/ChatHelpers/Tests.antt =====
-- Somebody who is idle in two channels.
use convos.Prelude.{◌≡◌, refl, codes, [], ◌∷◌, length}
use convos.SortedMap.{sort}
use convos.Host.{code_gt}
use convos.ChatHelpers.{Whois, away_message, away_message-placeholders, placeholders, counting}

abbrev idler : Whois
idler = record {
  nick = codes "a";
  name = codes "A";
  user = [];
  away = [];
  idle_for = codes "7";
  channels = codes "#b" ∷ codes "#a" ∷ [];
}

idler_said : away_message idler ≡ (
  codes "%1 (%2) has been idle for %3s in %4.",
  codes "a" ∷ codes "A" ∷ codes "7" ∷ codes "#a, #b" ∷ [],
)
unfolding away_message sort code_gt
idler_said = refl

away_message-placeholders_example :
    placeholders (away_message idler).0 ≡ counting 1 (length (away_message idler).1)
away_message-placeholders_example = away_message-placeholders idler refl
