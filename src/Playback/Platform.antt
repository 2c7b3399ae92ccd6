-- ===== src/Playback/Platform.antt =====
-- internal/playback/timestamps.go, over Go's `time`; and Go's library as the session uses it.
use ben_desktop.Base.{ℕ, String, Bool, ◌≡◌, Option, none, some, is_blank, if◌then◌else◌}
use ben_desktop.Playback.Rand.{Rand}

-- `parse` and `format` use RFC 3339 in UTC. `sprint_id prefix n` is `Sprintf("%s-%d", prefix, n)`, and
-- it tells the numbers apart. `to_lower` is `strings.ToLower`.
pub record Platform : Type 1 where
  pub rand : Rand
  pub Time : Type 0
  pub is_zero : Time → Bool
  pub parse : String → Option Time
  pub format : Time → String
  pub to_lower : String → String
  pub sprint_id : String → ℕ → String
  pub sprint_id-injective :
      (prefix : String) (m n : ℕ) → sprint_id prefix m ≡ sprint_id prefix n → m ≡ n

module _ (P : Platform) where
  unfoldable pub format_timestamp : P.Time → String
  format_timestamp value = if P.is_zero value then "" else P.format value

  unfoldable pub parse_timestamp : String → Option P.Time
  parse_timestamp value = if is_blank value then none else P.parse value

  unfoldable pub normalize_timestamp : String → String
  unfolding format_timestamp parse_timestamp
  normalize_timestamp value = elim (parse_timestamp value) [
    | none ↦ ""
    | some t ↦ format_timestamp t
  ]
