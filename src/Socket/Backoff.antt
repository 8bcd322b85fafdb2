-- ===== src/Socket/Backoff.antt =====
-- The delay before a reconnect.
use convos.Prelude.{
  ℕ, ◌*◌, ◌≡◌, ◌≤◌, ◌==◌, ◌||◌, arith, none, some, false, true, leb, ltb, if◌then◌else◌,
}
use convos.Socket.{reconnect_in}

-- Unless the server closed with code 1008 or 1011, the delay lies between one and ten seconds, is one
-- second at the first loss, and does not fall with the number of losses; with those codes there is
-- no reconnect.
pub reconnect_in_lem :
    (code times more : ℕ)
    → times ≤ more
    → ((code == 1008 || code == 1011) ≡ true → reconnect_in code times ≡ none)
      × ((code == 1008 || code == 1011) ≡ false
          → (d : ℕ) × (e : ℕ) × (reconnect_in code times ≡ some d)
            × (reconnect_in code more ≡ some e)
            × (1000 ≤ d)
            × (d ≤ e)
            × (e ≤ 10000)
            × (reconnect_in code 1 ≡ some 1000))
unfolding reconnect_in
reconnect_in_lem code times more h = (
  λ f. rw f,
  λ f. (
    delay times,
    delay more,
    ground arith,
    ground arith,
    ground arith,
    ground arith,
    ground arith,
    rw f,
  ),
)
  where
    delay : ℕ → ℕ
    delay n = if leb n 1 then 1000 else if ltb 5 n then 10000 else 1000 * (n * 2)
