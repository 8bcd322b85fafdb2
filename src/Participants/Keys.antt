-- ===== src/Participants/Keys.antt =====
-- Who is in the map: lookups after `add` and `delete`, and the keys.
use convos.Prelude.{
  ◌≡◌, refl, ap, ◌∙◌, Text, text_eq, text_eq_iff, [], ◌∷◌, Option, none, some, arith, if◌then◌else◌,
  string_eq, All, or_text,
}
use convos.Prelude.Dict.{
  get, set, delete, get-set, get-delete, Distinct, set-Distinct, delete-Distinct,
}
use convos.Host.{Host}
use convos.Participants.{
  Participant, Participants, keep_existing, merge, name_for_nick, id_of, with_group, added, add,
  add-some, get_nick, delete_nick,
}

module _ (host : Host) where
  -- `add` of a participant with a nick: that nick, in any spelling with the same lower case, is
  -- there, with the id and, unless the id is empty, with its own nick; every other nick has what it
  -- had before.
  pub get_nick-add :
      (ps : Participants) (p : Participant) (nick other : Text)
      → p.nick ≡ some nick
      → (qs : Participants) × (add host ps p ≡ some qs)
        × (get_nick host qs other ≡ (
            if text_eq (id_of host nick) (id_of host other)
            then some (added host ps p nick)
            else get_nick host ps other))
  get_nick-add ps p nick other e = (
    set (id_of host nick) (added host ps p nick) ps,
    add-some host ps p nick e,
    get-set (id_of host other) (id_of host nick) (added host ps p nick) ps,
  )

  -- The map is well-formed: no key twice, and each participant is stored under its own id.
  abbrev IsKeyedEntry : Text × Participant → Type 0
  IsKeyedEntry e = e.1.id ≡ e.0

  pub record IsKeyed (ps : Participants) : Type 0 where
    pub distinct : Distinct ps
    pub own : All IsKeyedEntry ps

  All-set :
      (k : Text) (v : Participant) (ps : Participants)
      → v.id ≡ k
      → All IsKeyedEntry ps
      → All IsKeyedEntry (set k v ps)
  unfolding set
  All-set k v [] e a = (e, tt)
  All-set k v ((i, w) ∷ ps) e a = ground (arith, text_eq_iff i k, All-set k v ps e a.1)

  All-delete : (k : Text) (ps : Participants) → All IsKeyedEntry ps → All IsKeyedEntry (delete k ps)
  unfolding delete
  All-delete k [] a = tt
  All-delete k ((i, w) ∷ ps) a = ground (arith, All-delete k ps a.1)

  own_id :
      (k : Text) (ps : Participants) (q : Participant)
      → All IsKeyedEntry ps
      → get k ps ≡ some q
      → q.id ≡ k
  unfolding get
  own_id k [] q a h = cc
  own_id k ((i, w) ∷ ps) q a h = ground (arith, text_eq_iff i k, own_id k ps q a.1)

  or_text_self : (a : Text) → or_text a a ≡ a
  or_text_self [] = refl
  or_text_self (c ∷ s) = refl

  merged_id :
      (p : Participant) (k : Text) (o : Option Participant)
      → p.id ≡ k
      → ((q : Participant) → o ≡ some q → q.id ≡ k)
      → (name_for_nick (merge p o)).id ≡ k
  unfolding keep_existing
  merged_id p k none e h = e
  merged_id p k (some q) e h =
      ap (λ i. or_text i q.id) e ∙ ap (or_text k) (h q refl) ∙ or_text_self k

  pub added_id :
      (ps : Participants) (p : Participant) (nick : Text)
      → IsKeyed ps
      → (added host ps p nick).id ≡ id_of host nick
  unfolding added with_group
  added_id ps p nick v =
      merged_id (with_group host p nick) (id_of host nick) (get (id_of host nick) ps) refl
        (λ q h. own_id (id_of host nick) ps q v.own h)

  -- `add` of a participant with a nick keeps the map well-formed.
  pub add-IsKeyed :
      (ps : Participants) (p : Participant) (nick : Text)
      → p.nick ≡ some nick
      → IsKeyed ps
      → (qs : Participants) × (add host ps p ≡ some qs) × IsKeyed qs
  add-IsKeyed ps p nick e v = (
    set (id_of host nick) (added host ps p nick) ps,
    add-some host ps p nick e,
    record {
      distinct = set-Distinct (id_of host nick) _ ps v.distinct;
      own = All-set (id_of host nick) _ ps (added_id ps p nick v) v.own;
    },
  )

  -- `delete` keeps the map keyed by the ids; the nick is gone after it, and every other is as before.
  pub delete_nick-IsKeyed :
      (ps : Participants) (nick other : Text)
      → IsKeyed ps
      → IsKeyed (delete_nick host ps nick)
        × (get_nick host (delete_nick host ps nick) other ≡ (
            if text_eq (id_of host nick) (id_of host other) then none else get_nick host ps other))
  unfolding delete_nick
  delete_nick-IsKeyed ps nick other v = (
    record {
      distinct = delete-Distinct (id_of host nick) ps v.distinct;
      own = All-delete (id_of host nick) ps v.own;
    },
    get-delete (id_of host other) (id_of host nick) ps,
  )
