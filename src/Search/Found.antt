-- ===== src/Search/Found.antt =====
-- What a search shows.
use convos.Prelude.{
  ℕ, ◌≡◌, refl, false, or_text, List, [], ◌∷◌, if◌then◌else◌, Bool-cases, inl, inr, append-nil,
}
use convos.Host.{Host}
use convos.Messages
use convos.Messages.{ChatMessage, Messages, fill, push, unshift}
use convos.Conversation.{Status, is_loading}
use convos.Search.{Search, SearchParams, has_solid, load, loaded, nothing_to_search}

module _ (host : Host) (now later : ℕ) where
  -- A search that is not loading yet: with something to search for, a request is sent, and the messages
  -- afterwards are those of its answer alone, in their order, with the query kept; without, no request
  -- is sent, the query is as before, and one message says so.
  pub load-loaded :
      (p : SearchParams) (s : Search) (status : Status) (list : List ChatMessage)
      → is_loading s.status ≡ false
      → let query = or_text p.match p.message in
        let r = load host now p s in
        let d = if r.1 then loaded host later p status list r.0 else r.0 in
        (r.1 ≡ has_solid query)
        × (d.query ≡ (if has_solid query then query else s.query))
        × (d.messages.messages ≡ (
            if has_solid query
            then fill host later s.messages.last_id list
            else fill host now s.messages.last_id (nothing_to_search host now p.message ∷ [])))
  unfolding load loaded push unshift Messages.clear
  load-loaded p s status list idle = elim (Bool-cases (has_solid (or_text p.match p.message))) [
    | inl solid ↦ elim (Bool-cases p.before) [
      | inl older ↦
          rw (idle, solid, load, loaded, older, unshift, Messages.clear)
            (refl, refl, append-nil (fill host later s.messages.last_id list))
      | inr newer ↦ rw (idle, solid, load, loaded, newer, push, Messages.clear) (refl, refl, refl)
    ]
    | inr blank ↦ rw (idle, blank, load, Messages.clear) (refl, refl, refl)
  ]
