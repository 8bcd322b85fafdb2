-- ===== src/Messages/Rendering.antt =====
-- Rendering a list that grows.
use convos.Prelude.{
  ℕ, suc, ◌+◌, ◌≡◌, refl, ap, ap₂, ◌∙◌, sym, false, List, [], ◌∷◌, ◌++◌, Option, none, some, length,
  get_elem?,
}
use convos.Host.{Host}
use convos.Messages.{
  Shown, ChatMessage, Messages, fill, push, unshift, show, show_if, render_from, render,
}

module _ (get_date : ℕ → ℕ) where
  show_kept :
      (prev : Option ChatMessage) (m : ChatMessage) (s : Shown)
      → m.shown ≡ some s
      → show get_date prev m ≡ m
  unfolding show
  show_kept prev m s h = ap (λ o. show_if get_date o prev m) h

  show_if-twice :
      (o : Option Shown) (p q : Option ChatMessage) (m : ChatMessage)
      → m.shown ≡ o
      → show get_date q (show_if get_date o p m) ≡ show_if get_date o p m
  unfolding show
  show_if-twice none p q m e = refl
  show_if-twice (some s) p q m e = show_kept q m s e

  show_twice :
      (p q : Option ChatMessage) (m : ChatMessage)
      → show get_date q (show get_date p m) ≡ show get_date p m
  unfolding show
  show_twice p q m = show_if-twice m.shown p q m refl

  render_from-append :
      (prev : Option ChatMessage) (a b : List ChatMessage)
      → render_from get_date prev (render_from get_date prev a ++ b)
        ≡ render_from get_date prev (a ++ b)
  unfolding render_from
  render_from-append prev [] b = refl
  render_from-append prev (m ∷ a) b =
      ap₂ (λ x l. x ∷ l) (show_twice prev prev m)
        (ap
            (λ x.
              render_from get_date (some x)
                (render_from get_date (some (show get_date prev m)) a ++ b))
            (show_twice prev prev m)
          ∙ render_from-append (some (show get_date prev m)) a b)

  -- Rendering before and after messages are added at the end gives what one rendering at the end
  -- gives: the days and senders shown do not depend on when the page was drawn.
  pub render-push :
      (host : Host) (now : ℕ) (list : List ChatMessage) (ms : Messages)
      → render get_date (push host now list (render get_date ms))
        ≡ render get_date (push host now list ms)
  unfolding render push
  render-push host now list ms =
      ap (λ l. record ms { messages = l; last_id = ms.last_id + length list })
        (render_from-append none ms.messages (fill host now ms.last_id list))

  render_from-keeps :
      (prev : Option ChatMessage) (a b : List ChatMessage) (m : ChatMessage) (s : Shown)
      → m.shown ≡ some s
      → get_elem? (render_from get_date prev (a ++ m ∷ b)) (length a) ≡ some m
  unfolding render_from
  render_from-keeps prev [] b m s h = ap some (show_kept prev m s h)
  render_from-keeps prev (x ∷ a) b m s h = render_from-keeps (some (show get_date prev x)) a b m s h

  length-fill :
      (host : Host) (now id : ℕ) (list : List ChatMessage)
      → length (fill host now id list) ≡ length list
  unfolding fill
  length-fill host now id [] = refl
  length-fill host now id (m ∷ list) = ap suc (length-fill host now (suc id) list)

  -- Older messages that are put in front do not change how the message after them is shown: if it was
  -- the first one when the page was drawn, no new day begins at it, whatever day the older ones are of.
  pub render-unshift :
      (host : Host) (now : ℕ) (list rest : List ChatMessage) (m : ChatMessage) (ms : Messages)
      → ms.messages ≡ m ∷ rest
      → m.shown ≡ none
      → get_elem?
          (render get_date (unshift host now list (render get_date ms))).messages
          (length list)
        ≡ some (record m { shown = some (record { same_from = false; day_changed = false }) })
  unfolding render unshift show
  render-unshift host now list rest m ms first unseen =
      let kept = show get_date none m in
      let list' = fill host now ms.last_id list in
      ap
        (λ l.
          get_elem? (render_from get_date none (list' ++ render_from get_date none l))
            (length list))
        first
      ∙ ap
          (λ n.
            get_elem?
              (render_from get_date none (list' ++ kept ∷ render_from get_date (some kept) rest)) n)
          (sym (length-fill host now ms.last_id list))
      ∙ render_from-keeps none list' (render_from get_date (some kept) rest) kept
          (record { same_from = false; day_changed = false })
          (ap (λ o. (show_if get_date o none m).shown) unseen)
      ∙ ap (λ o. some (show_if get_date o none m)) unseen
