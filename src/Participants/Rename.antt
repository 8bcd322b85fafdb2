-- ===== src/Participants/Rename.antt =====
-- `rename` and `clear`.
use convos.Prelude.{
  ℕ, ◌≡◌, refl, ap, ◌∙◌, get_or, Option-cases, false, ◌||◌, Text, text_eq, text_eq_iff, [], ◌∷◌,
  none, some, arith, string_eq, find, inl, inr,
}
use convos.Prelude.Dict
use convos.Prelude.Dict.{Dict, get, set, delete, get-set, get-delete, get-set_self}
use convos.Host.{Host}
use convos.Participants.{
  Participant, Participants, named, keep_existing, id_of, with_group, added, add, add-some,
  get_nick, delete_nick, default_participant, renamed, rename, me, clear, nicks,
}

module _ (host : Host) where
  rename-some :
      (ps : Participants) (p : Participant) (old_nick new_nick : Text)
      → get_nick host ps old_nick ≡ some p
      → rename host ps old_nick new_nick
        ≡ some (
            set
              (id_of host new_nick)
              (added host (delete (id_of host old_nick) ps) (renamed p new_nick) new_nick)
              (delete (id_of host old_nick) ps))
  unfolding rename delete_nick
  rename-some ps p old_nick new_nick there =
      ap
        (λ o.
          add host (delete (id_of host old_nick) ps) (renamed (get_or o (named new_nick)) new_nick))
        there
      ∙ add-some host (delete (id_of host old_nick) ps) (renamed p new_nick) new_nick refl

  added_nick :
      (ps : Participants) (p : Participant) (c : ℕ) (str : Text)
      → (added host ps (renamed p (c ∷ str)) (c ∷ str)).nick ≡ some (c ∷ str)
  unfolding added with_group keep_existing
  added_nick ps p c str = elim (Option-cases (get_nick host ps (c ∷ str))) [
    | inl e ↦ rw e
    | inr (r, e) ↦ rw e
  ]

  added_me :
      (ps : Participants) (p : Participant) (nick : Text)
      → (added host ps (renamed p nick) nick).me
        ≡ (elim (get_nick host ps nick) [ none ↦ p.me | some r ↦ p.me || r.me ])
  unfolding added with_group keep_existing
  added_me ps p nick = elim (Option-cases (get_nick host ps nick)) [
    | inl e ↦ rw e
    | inr (r, e) ↦ rw e
  ]

  -- After a rename to a nonempty nick with another id, the old nick is gone; the new nick is there
  -- with its new spelling, and is the user's own if the old one was or if somebody under the new nick
  -- was; all others are as before.
  pub rename_lem :
      (ps : Participants) (p : Participant) (old_nick : Text) (c : ℕ) (str other : Text)
      → get_nick host ps old_nick ≡ some p
      → text_eq (id_of host old_nick) (id_of host (c ∷ str)) ≡ false
      → (qs : Participants) × (q : Participant) × (rename host ps old_nick (c ∷ str) ≡ some qs)
        × (get_nick host qs (c ∷ str) ≡ some q)
        × (q.nick ≡ some (c ∷ str))
        × (q.me ≡ (elim (get_nick host ps (c ∷ str)) [ none ↦ p.me | some r ↦ p.me || r.me ]))
        × (get_nick host qs old_nick ≡ none)
        × (text_eq (id_of host (c ∷ str)) (id_of host other) ≡ false
            → text_eq (id_of host old_nick) (id_of host other) ≡ false
            → get_nick host qs other ≡ get_nick host ps other)
  rename_lem ps p old_nick c str other there differ = (
    set (id_of host (c ∷ str)) q rest,
    q,
    rename-some ps p old_nick (c ∷ str) there,
    get-set_self (id_of host (c ∷ str)) q rest,
    added_nick rest p c str,
    added_me rest p (c ∷ str)
        ∙ ap (λ o. elim o [ none ↦ p.me | some r ↦ p.me || r.me ])
            (get-delete (id_of host (c ∷ str)) (id_of host old_nick) ps ∙ rw differ),
    ground (
      arith,
      get-set (id_of host old_nick) (id_of host (c ∷ str)) q rest,
      get-delete (id_of host old_nick) (id_of host old_nick) ps,
      text_eq_iff (id_of host old_nick) (id_of host (c ∷ str)),
      text_eq_iff (id_of host (c ∷ str)) (id_of host old_nick),
      text_eq_iff (id_of host old_nick) (id_of host old_nick),
    ),
    λ new_other old_other. ground (
      arith,
      get-set (id_of host other) (id_of host (c ∷ str)) q rest,
      get-delete (id_of host other) (id_of host old_nick) ps,
    ),
  )
    where
      rest : Participants
      rest = delete (id_of host old_nick) ps

      q : Participant
      q = added host rest (renamed p (c ∷ str)) (c ∷ str)

  me_of :
      (ps : Participants) (p : Participant)
      → get_or (find (λ p. p.me) (Dict.values ps)) default_participant ≡ p
      → me host ps ≡ p
  unfolding me
  me_of ps p e = e

  -- With nobody of the user's own in the list, `clear` leaves one entry, without a nick; else the
  -- user alone, if with a nick.
  pub clear_lem :
      (ps : Participants)
      → (find (λ p. p.me) (Dict.values ps) ≡ none
          → (qs : Participants) × (clear host ps ≡ some qs) × (nicks host qs ≡ none ∷ []))
        × ((p : Participant) (c : ℕ) (str : Text)
            → find (λ p. p.me) (Dict.values ps) ≡ some p
            → p.nick ≡ some (c ∷ str)
            → (qs : Participants) × (clear host ps ≡ some qs)
              × (nicks host qs ≡ some (c ∷ str) ∷ []))
  unfolding clear nicks added with_group set get
  clear_lem ps = (
    λ e. (
      _,
      ap (add host []) (me_of ps default_participant (ap (λ o. get_or o default_participant) e))
          ∙ add-some host [] default_participant [] refl,
      refl,
    ),
    λ p c str e n. (
      _,
      ap (add host []) (me_of ps p (ap (λ o. get_or o default_participant) e))
          ∙ add-some host [] p (c ∷ str) n,
      rw n,
    ),
  )
