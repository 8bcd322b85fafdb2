-- ===== src/User/Ensuring.antt =====
-- `ensureConversation` of the user: the conversation is in the tree, and what is shown stays there.
use convos.Prelude.{
  ℕ, ◌≡◌, refl, ap, ◌∙◌, sym, subst, Bool, true, false, Text, text_eq, text_eq_sound, text_eq_refl,
  is_empty, none, some, is_some, if◌then◌else◌, string_eq, Bool-cases, Option-cases, inl, inr,
}
use convos.Prelude.Dict.{Dict, get, set, get-set}
use convos.Host.{Host}
use convos.Conversation.{Conversation}
use convos.SortedMap
use convos.SortedMap.Lookup.{get-set_sorted}
use convos.Connection
use convos.Connection.{Connection, Params, Page, Effect, removed, shows, find_conversation}
use convos.Connection.Ensure
use convos.SortedMap.Entries.{sorted-Values}
use convos.User.{
  User, ConnectionParams, by_name, only_id, enter_conversation, update_connection,
  ensure_connection, ensure_conversation, find_in, is_found, maybe_upgrade_active_conversation,
  changed,
}
use convos.User.Tree.{IsValidOption, IsTree, valid_at, set-IsTree}
use convos.User.Shown.{IsShowing, Keeps, found_after, found_in, shown_still}

absent_in :
    (id i k : Text) (u : User)
    → get id u.connections ≡ none
    → text_eq id i ≡ true
    → is_found i k u ≡ false
unfolding is_found find_in
absent_in id i k u there same =
    let e = ap (λ t. get t u.connections) (sym (text_eq_sound id i same)) ∙ there in
    rw (e, is_found, find_in)
      (elim (Bool-cases (is_empty k)) [ inl h ↦ rw h refl | inr h ↦ rw h refl ])

-- The connection of `ensureConversation` is in the tree, and what was found is found.
abbrev pub Enters : Text → User → User → Type 0
Enters id u v =
    (c : Connection) × (get id v.connections ≡ some c)
    × Ensure.IsValid c
    × Keeps u v
    × IsShowing v
    × IsTree v

enters :
    (id : Text) (c : Connection) (m : Dict Text Connection) (u : User)
    → ((j : Text) → get j m ≡ (if text_eq id j then some c else get j u.connections))
    → ((i k : Text)
        → text_eq id i ≡ true
        → is_found i k u ≡ true
        → (if is_empty k then true else is_some (find_conversation k c)) ≡ true)
    → Ensure.IsValid c
    → IsShowing u
    → IsTree (record u { connections = m })
    → Enters id u (record u { connections = m })
enters id c m u looked kept valid h tree =
    let keeps : Keeps u (record u { connections = m }) =
      λ i k found. found_after id i k c m u (looked i) ∙ same i k found (text_eq id i) refl in
    (
      c,
      looked id ∙ rw (text_eq_refl id) refl,
      valid,
      keeps,
      shown_still u.active u (record u { connections = m }) keeps h,
      tree,
    )
  where
    same :
        (i k : Text)
        → is_found i k u ≡ true
        → (b : Bool) → text_eq id i ≡ b
        → (if text_eq id i
            then (if is_empty k then true else is_some (find_conversation k c))
            else is_found i k u)
          ≡ true
    same i k found true e = rw e (kept i k e found)
    same i k found false e = rw e found

module _ (host : Host) (now : ℕ) (page : Page) (l : Text → Text) where
  pub ensure_connection-Enters :
      (q : ConnectionParams) (u : User)
      → IsTree u
      → Ensure.IsValid q.fresh
      → IsShowing u
      → Enters q.connection_id u (ensure_connection host now page l q u)
  unfolding ensure_connection update_connection
  ensure_connection-Enters q u tree fresh h =
      elim (Option-cases (get q.connection_id u.connections)) [
        | inr (c, e) ↦
            let id = q.connection_id in
            let valid = subst IsValidOption e (valid_at id u.connections tree.valid) in
            let d = update_connection host now page l q c in
            rw (e, Enters, ensure_connection)
              (enters id d (set id d u.connections) u (λ j. get-set j id d u.connections)
                (λ i k same found. sym (found_in id i k c u e same) ∙ found)
                (record { distinct = valid.distinct; own = valid.own }) h
                (set-IsTree id d u tree (record { distinct = valid.distinct; own = valid.own })))
        | inl e ↦
            let id = q.connection_id in
            let m = SortedMap.set (by_name host) id q.fresh u.connections in
            rw (e, Enters, ensure_connection)
              (enters id q.fresh m u
                (λ j. (get-set_sorted (by_name host) j id q.fresh u.connections tree.distinct).0)
                (λ i k same found. let no_one = absent_in id i k u e same in cc) fresh h
                (record {
                  distinct =
                      (get-set_sorted (by_name host) id id q.fresh u.connections tree.distinct).1;
                  valid =
                      sorted-Values Ensure.IsValid (by_name host) id q.fresh u.connections fresh
                        tree.valid;
                }))
      ]

  enter_conversation-some :
      (q : ConnectionParams) (p : Params) (u : User) (c d : Connection)
      → get q.connection_id (ensure_connection host now page l (only_id q) u).connections ≡ some c
      → Connection.ensure_conversation host now page l p c ≡ some d
      → enter_conversation host now page l q p u
        ≡ some (
            maybe_upgrade_active_conversation q.connection_id p.conversation_id
              (changed q.connection_id c d (ensure_connection host now page l (only_id q) u)))
  unfolding enter_conversation
  enter_conversation-some q p u c d there e = rw (there, e, enter_conversation) refl

  -- What `ensureConversation` gives when there is a conversation id.
  pub entered :
      (q : ConnectionParams) (p : Params) (u : User) (c d : Connection)
      → is_empty p.conversation_id ≡ false
      → get q.connection_id (ensure_connection host now page l (only_id q) u).connections ≡ some c
      → Connection.ensure_conversation host now page l p c ≡ some d
      → ensure_conversation host now page l q p u
        ≡ some (
            maybe_upgrade_active_conversation q.connection_id p.conversation_id
              (changed q.connection_id c d (ensure_connection host now page l (only_id q) u)))
  unfolding ensure_conversation
  entered q p u c d given there e =
      ap
        (λ b.
          if b
          then some (ensure_connection host now page l q u)
          else enter_conversation host now page l q p u)
        given
      ∙ enter_conversation-some q p u c d there e
