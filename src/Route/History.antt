-- ===== src/Route/History.antt =====
-- The history: at most ten places, none twice, the latest last.
use convos.Prelude.{
  ◌≡◌, ◌≤◌, refl, false, Text, text_eq, List, [], ◌∷◌, ◌++◌, some, length, All, All-append,
  get_last?, get_last?-append, ltb, arith, Bool-cases, inl, inr,
}
use convos.Route.{Route, without_base, others, trim, add_to_history, remove_from_history}

-- No text stands twice.
abbrev pub IsUnique : List Text → Type 0
IsUnique [] = Unit
IsUnique (x ∷ xs) = All (λ y. text_eq x y ≡ false) xs × IsUnique xs

pub record IsHistory (history : List Text) : Type 0 where
  pub short : length history ≤ 10
  pub unique : IsUnique history

others-All :
    (P : Text → Type 0) (url : Text) (history : List Text)
    → All P history
    → All P (others url history)
unfolding others
others-All P url [] a = tt
others-All P url (x ∷ history) a = ground (arith, others-All P url history a.1)

others-IsUnique :
    (url : Text) (history : List Text) → IsUnique history → IsUnique (others url history)
unfolding others
others-IsUnique url [] u = tt
others-IsUnique url (x ∷ history) u = elim (Bool-cases (text_eq x url)) [
  | inl same ↦ rw same (others-IsUnique url history u.1)
  | inr differs ↦
      rw differs
        (others-All (λ y. text_eq x y ≡ false) url history u.0, others-IsUnique url history u.1)
]

-- What is left differs from the text that was removed.
others-differ :
    (url : Text) (history : List Text) → All (λ y. text_eq y url ≡ false) (others url history)
unfolding others
others-differ url [] = tt
others-differ url (x ∷ history) = ground (arith, others-differ url history)

append-IsUnique :
    (url : Text) (history : List Text)
    → IsUnique history
    → All (λ y. text_eq y url ≡ false) history
    → IsUnique (history ++ url ∷ [])
append-IsUnique url [] u a = (tt, tt)
append-IsUnique url (x ∷ history) u a = (
  All-append (λ y. text_eq x y ≡ false) history (url ∷ []) u.0 (a.0, tt),
  append-IsUnique url history u.1 a.1,
)

trim-IsUnique : (history : List Text) → IsUnique history → IsUnique (trim history)
unfolding trim
trim-IsUnique [] u = tt
trim-IsUnique (x ∷ history) u = ground (arith, trim-IsUnique history u.1)

trim-short : (history : List Text) → length (trim history) ≤ 10
unfolding trim
trim-short [] = omega arith
trim-short (x ∷ history) = ground (arith, trim-short history)

trim-last : (history : List Text) (url : Text) → get_last? (trim (history ++ url ∷ [])) ≡ some url
unfolding trim
trim-last [] url = refl
trim-last (x ∷ history) url = elim (Bool-cases (ltb 10 (length (x ∷ history ++ url ∷ [])))) [
  | inl long ↦ rw long (trim-last history url)
  | inr short ↦ rw short (get_last?-append (x ∷ history) url)
]

-- Adding a place to any history without repetitions gives at most ten places without repetitions, of
-- which the new one, without the base URL, is the last.
pub add_to_history-IsHistory :
    (url : Text) (r : Route)
    → IsUnique r.history
    → IsHistory (add_to_history url r).history
      × (get_last? (add_to_history url r).history ≡ some (without_base r.base_url url))
unfolding add_to_history
add_to_history-IsHistory url r u =
    let short = without_base r.base_url url in
    (
      record {
        short = trim-short (others short r.history ++ short ∷ []);
        unique = trim-IsUnique (others short r.history ++ short ∷ []) (
            append-IsUnique short (others short r.history) (others-IsUnique short r.history u)
              (others-differ short r.history));
      },
      trim-last (others short r.history) short,
    )

length-others-le : (url : Text) (history : List Text) → length (others url history) ≤ length history
unfolding others
length-others-le url [] = omega arith
length-others-le url (x ∷ history) = ground (arith, length-others-le url history)

-- Removing a place keeps the history well-formed, and the place is not in it any more.
pub remove_from_history-IsHistory :
    (url : Text) (r : Route)
    → IsHistory r.history
    → IsHistory (remove_from_history url r).history
      × All
          (λ y. text_eq y (without_base r.base_url url) ≡ false)
          (remove_from_history url r).history
unfolding remove_from_history
remove_from_history-IsHistory url r h =
    let short = without_base r.base_url url in
    (
      record {
        short = omega (arith, length-others-le short r.history);
        unique = others-IsUnique short r.history h.unique;
      },
      others-differ short r.history,
    )
