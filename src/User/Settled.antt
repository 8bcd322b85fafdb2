-- ===== src/User/Settled.antt =====
-- assets/store/User.js: `_maybeUpgradeActiveConversation` after `ensureConversation`. What the page shows
-- gives way to the object of the tree that has its ids.
use convos.Prelude.{
  ℕ, ◌≡◌, refl, ap, ◌∙◌, sym, subst, Bool, false, not, ◌&&◌, Text, text_eq, is_empty, [], ◌∷◌,
  Option, none, some, get_or, Bool-cases, Option-cases, inl, inr, length, drop, arith, string_eq,
}
use convos.Prelude.Dict.{get, set}
use convos.Host.{Host}
use convos.Conversation.{Conversation}
use convos.Connection.{Params, Page, added, find_conversation}
use convos.Connection.Ensure
use convos.Connection.Ensure.{ensure_conversation_lem}
use convos.User.{
  User, Active, notifications_page, live, missing, stale, ConnectionParams, only_id,
  ensure_connection, ensure_conversation, has_ids, maybe_upgrade_active_conversation, hear, changed,
}
use convos.User.Shown.{IsShowing, drop-append}
use convos.User.Tree.{IsTree}
use convos.User.Ensuring.{entered, ensure_connection-Enters}

-- Whether the page shows an object with the ids of this conversation that is not in the tree.
abbrev pub is_left : Text → Text → Active → Bool
is_left connection_id conversation_id notifications_page = false
is_left connection_id conversation_id (live c k) = false
is_left connection_id conversation_id (missing c k) =
    not (is_empty conversation_id) && (text_eq connection_id c && text_eq conversation_id k)
is_left connection_id conversation_id (stale c k) =
    not (is_empty conversation_id) && (text_eq connection_id c && text_eq conversation_id k)

upgrade-kept :
    (i j c k : Text) (u : User)
    → is_left i j u.active ≡ false
    → is_left i j (maybe_upgrade_active_conversation c k u).active ≡ false
unfolding maybe_upgrade_active_conversation
upgrade-kept i j c k u h = elim (Bool-cases (not (is_empty k) && has_ids c k u.active)) [
  | inl e ↦ rw (e, maybe_upgrade_active_conversation) refl
  | inr e ↦ rw (e, maybe_upgrade_active_conversation) h
]

not_left :
    (c k : Text) (a : Active) → (not (is_empty k) && has_ids c k a) ≡ false → is_left c k a ≡ false
not_left c k notifications_page h = refl
not_left c k (live i j) h = refl
not_left c k (missing i j) h = ground (arith, h)
not_left c k (stale i j) h = ground (arith, h)

upgrade-settles :
    (c k : Text) (u : User) → is_left c k (maybe_upgrade_active_conversation c k u).active ≡ false
unfolding maybe_upgrade_active_conversation
upgrade-settles c k u = elim (Bool-cases (not (is_empty k) && has_ids c k u.active)) [
  | inl e ↦ rw (e, maybe_upgrade_active_conversation) refl
  | inr e ↦ rw (e, maybe_upgrade_active_conversation) (not_left c k u.active e)
]

heard-kept :
    (i j id k : Text) (o : Option Conversation) (u : User)
    → is_left i j u.active ≡ false
    → is_left i j (hear id (elim o [ none ↦ added k ∷ [] | some old ↦ [] ]) u).active ≡ false
unfolding hear
heard-kept i j id k none u h = upgrade-kept i j id k u h
heard-kept i j id k (some old) u h = h

module _ (host : Host) (now : ℕ) (page : Page) (l : Text → Text) where
  pub ensure_connection-active :
      (q : ConnectionParams) (u : User) → (ensure_connection host now page l q u).active ≡ u.active
  unfolding ensure_connection
  ensure_connection-active q u = elim (Option-cases (get q.connection_id u.connections)) [
    | inl e ↦ rw (e, ensure_connection) refl
    | inr (c, e) ↦ rw (e, ensure_connection) refl
  ]

  -- After `w` the page does not show an object outside the tree with the ids of the conversation, nor
  -- one with other ids unless it did so before.
  abbrev pub Settles : ConnectionParams → Params → User → User → Type 0
  Settles q p u w =
      (is_left q.connection_id p.conversation_id w.active ≡ false)
      × ((i j : Text) → is_left i j u.active ≡ false → is_left i j w.active ≡ false)

  pub ensure_conversation-Settles :
      (q : ConnectionParams) (p : Params) (u w : User)
      → IsTree u
      → Ensure.IsValid q.fresh
      → IsShowing u
      → ensure_conversation host now page l q p u ≡ some w
      → Settles q p u w
  unfolding ensure_conversation changed
  ensure_conversation-Settles q p u w tree fresh h eq =
      elim (Bool-cases (is_empty p.conversation_id)) [
        | inl none_given ↦
            let done : ensure_conversation host now page l q p u
                ≡ some (ensure_connection host now page l q u) =
              rw (none_given, ensure_conversation) refl in
            subst (Settles q p u) (ap (λ o. get_or o u) (sym done ∙ eq)) (
              not_left q.connection_id p.conversation_id _ (rw none_given refl),
              λ i j g. ap (is_left i j) (ensure_connection-active q u) ∙ g,
            )
        | inr given ↦
            let id = q.connection_id in
            let k = p.conversation_id in
            let v = ensure_connection host now page l (only_id q) u in
            let (c, there, valid, keeps, shown, grown) =
              ensure_connection-Enters host now page l (only_id q) u tree fresh h in
            let (d, conv, e, r) = ensure_conversation_lem host now page l p k c valid in
            let x = changed id c d v in
            let moved = record v { connections = set id d v.connections } in
            let done : ensure_conversation host now page l q p u
                ≡ some (maybe_upgrade_active_conversation id k x) =
              entered host now page l q p u c d given there e in
            let effects = ap (drop (length c.out)) r.4 ∙ drop-append c.out _ in
            let kept = λ (i j : Text) (g : is_left i j u.active ≡ false).
              subst (λ fx. is_left i j (hear id fx moved).active ≡ false) (sym effects)
                (heard-kept i j id k (find_conversation k c) moved
                  (ap (is_left i j) (ensure_connection-active (only_id q) u) ∙ g)) in
            subst (Settles q p u) (ap (λ o. get_or o u) (sym done ∙ eq))
              (upgrade-settles id k x, λ i j g. upgrade-kept i j id k x (kept i j g))
      ]
