-- ===== src/Playback/Rand.antt =====
-- Go's standard library as the session uses it: `math/rand` and `strings.EqualFold`.
use ben_desktop.Base.{ℕ, String, Bool, ◌<◌, List}

-- `swaps r n` is the list of exchanges that `Shuffle(n, swap)` asks for; both positions of each lie
-- below `n`. `Intn(n)` returns a number below `n`. `uint64` is a draw of 64 bits.
pub record Rand : Type 1 where
  pub Source : Type 0
  pub new_source : ℕ → Source
  pub swaps : Source → ℕ → List (ℕ × ℕ) × Source
  pub intn : Source → ℕ → ℕ × Source
  pub uint64 : Source → ℕ × Source
  pub intn-lt : (r : Source) (n : ℕ) → 0 < n → (intn r n).0 < n
  pub equal_fold : String → String → Bool
