-- ===== src/Reactive/Listeners.antt =====
-- `on`, its unsubscribe function, and `emit`, which walks the live array of one event's subscribers.
-- A subscriber is a number, so that each is unique; what a listener does to the array while it is
-- called is which subscribers it unsubscribes.
use convos.Prelude.{
  ℕ, zero, suc, ◌==◌, ==_iff, ◌≡◌, ◌≤◌, refl, ap, ap₂, append_assoc, All, ◌∙◌, sym, List, [], ◌∷◌,
  ◌++◌, none, some, arith, if◌then◌else◌, length, get_elem?, length-append,
}

-- `on(event, cb)`
unfoldable pub on : ℕ → List ℕ → List ℕ
on subscriber subscribers = subscribers ++ subscriber ∷ []

-- The function that `on` returns: it removes the first place that holds the subscriber.
unfoldable pub unsubscribe : ℕ → List ℕ → List ℕ
unsubscribe subscriber [] = []
unsubscribe subscriber (s ∷ rest) =
    if s == subscriber then rest else s ∷ unsubscribe subscriber rest

unfoldable pub unsubscribe_all : List ℕ → List ℕ → List ℕ
unfolding unsubscribe
unsubscribe_all [] subscribers = subscribers
unsubscribe_all (s ∷ gone) subscribers = unsubscribe_all gone (unsubscribe s subscribers)

module _ (drops : ℕ → List ℕ) where
  -- `for (let i = 0; i < subscribers.length; i++) subscribers[i][0](...params)`, with fuel: who is
  -- called, in order. `drops s` is whom the listener of `s` unsubscribes.
  unfoldable pub emit_from : ℕ → ℕ → List ℕ → List ℕ
  unfolding unsubscribe_all
  emit_from zero i subscribers = []
  emit_from (suc fuel) i subscribers = elim (get_elem? subscribers i) [
    | none ↦ []
    | some s ↦ s ∷ emit_from fuel (suc i) (unsubscribe_all (drops s) subscribers)
  ]

  -- `emit(event)`: each round starts one place further, so the length is enough fuel.
  unfoldable pub emit : List ℕ → List ℕ
  unfolding emit_from
  emit subscribers = emit_from (length subscribers) 0 subscribers

  at_end : (before : List ℕ) → get_elem? (before ++ []) (length before) ≡ none
  at_end [] = refl
  at_end (x ∷ before) = at_end before

  at_next :
      (before : List ℕ) (s : ℕ) (after : List ℕ)
      → get_elem? (before ++ s ∷ after) (length before) ≡ some s
  at_next [] s after = refl
  at_next (x ∷ before) s after = at_next before s after

  step :
      (subscribers : List ℕ) (s fuel i : ℕ)
      → get_elem? subscribers i ≡ some s
      → emit_from (suc fuel) i subscribers
        ≡ s ∷ emit_from fuel (suc i) (unsubscribe_all (drops s) subscribers)
  unfolding emit_from
  step subscribers s fuel i h = rw (h, emit_from)

  emit_from_quiet :
      (fuel : ℕ) (before after : List ℕ)
      → length after ≤ fuel
      → All (λ s. drops s ≡ []) after
      → emit_from fuel (length before) (before ++ after) ≡ after
  unfolding emit_from unsubscribe_all
  emit_from_quiet zero before [] h quiet = refl
  emit_from_quiet zero before (s ∷ after) h quiet = absurd (omega arith)
  emit_from_quiet (suc fuel) before [] h quiet = rw (at_end before, emit_from)
  emit_from_quiet (suc fuel) before (s ∷ after) h quiet =
      step (before ++ s ∷ after) s fuel (length before) (at_next before s after)
      ∙ (rw quiet.0 (
          ap (λ l. s ∷ l)
            (ap₂ (λ n l. emit_from fuel n l) (sym (length-append before (s ∷ []) ∙ omega arith))
                (sym (append_assoc before (s ∷ []) after))
              ∙ emit_from_quiet fuel (before ++ s ∷ []) after (omega arith) quiet.1)))

  -- If no listener unsubscribes anybody while it is called, `emit` calls every subscriber once, in
  -- the order of `on`.
  pub emit_quiet :
      (subscribers : List ℕ) → All (λ s. drops s ≡ []) subscribers → emit subscribers ≡ subscribers
  unfolding emit
  emit_quiet subscribers quiet =
      emit_from_quiet (length subscribers) [] subscribers (omega arith) quiet

  drop_self :
      (s : ℕ) (rest : List ℕ) → drops s ≡ s ∷ [] → unsubscribe_all (drops s) (s ∷ rest) ≡ rest
  unfolding unsubscribe_all unsubscribe
  drop_self s rest once = rw once (rw ((==_iff s s).1 refl))

  -- A first subscriber that unsubscribes itself while it is called makes `emit` pass over the next
  -- one, whoever comes after them.
  pub emit_skips :
      (s t : ℕ) (rest : List ℕ)
      → drops s ≡ s ∷ []
      → All (λ u. drops u ≡ []) rest
      → emit (s ∷ t ∷ rest) ≡ s ∷ rest
  unfolding emit
  emit_skips s t rest once quiet =
      step (s ∷ t ∷ rest) s (suc (length rest)) 0 refl
      ∙ ap (λ l. s ∷ emit_from (suc (length rest)) 1 l) (drop_self s (t ∷ rest) once)
      ∙ ap (λ l. s ∷ l) (emit_from_quiet (suc (length rest)) (t ∷ []) rest (omega arith) quiet)
