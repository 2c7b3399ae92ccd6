-- ===== src/Playback/Position.antt =====
-- internal/playback/session.go, indexOfInt: where an index stands in a cycle.
use ben_desktop.Base.{
  ℕ, zero, suc, ◌<◌, ◌≤◌, ◌≡◌, refl, Option, none, some, List, [], ◌∷◌, length, get_or, arith, ◌==◌,
  if◌then◌else◌, Option-cases, inl, inr,
}
use ben_desktop.Base.Int.{ℤ, pos, negsuc}
use ben_desktop.Base.Count.{IsCycle, count}

abbrev shift : Option ℕ → Option ℕ
shift none = none
shift (some p) = some (suc p)

position : List ℕ → ℕ → Option ℕ
position [] a = none
position (x ∷ xs) a = if x == a then some 0 else shift (position xs a)

-- `none` is -1.
unfoldable pub index_of_int : List ℕ → ℤ → Option ℕ
unfolding position
index_of_int xs (pos a) = position xs a
index_of_int xs (negsuc a) = none

position_found :
    (xs : List ℕ) (a p : ℕ) → position xs a ≡ some p → (p < length xs) × (get_or xs p 0 ≡ a)
unfolding position
position_found [] a p h = cc
position_found (x ∷ xs) a zero h = ground (arith, Option-cases (position xs a))
position_found (x ∷ xs) a (suc p) h =
    ground (arith, Option-cases (position xs a), position_found xs a p)

position_missing : (xs : List ℕ) (a : ℕ) → position xs a ≡ none → count a xs ≡ 0
unfolding position count
position_missing [] a h = refl
position_missing (x ∷ xs) a h = ground (arith, Option-cases (position xs a), position_missing xs a)

count-get_or : (xs : List ℕ) (p : ℕ) → p < length xs → 1 ≤ count (get_or xs p 0) xs
unfolding count
count-get_or [] p h = elim h [ ]
count-get_or (x ∷ xs) zero h = ground arith
count-get_or (x ∷ xs) (suc p) h = omega (arith, count-get_or xs p (omega arith))

position-get_or :
    (xs : List ℕ) (p : ℕ)
    → ((a : ℕ) → count a xs ≤ 1)
    → p < length xs
    → position xs (get_or xs p 0) ≡ some p
unfolding position count
position-get_or [] p c h = elim h [ ]
position-get_or (x ∷ xs) zero c h = ground arith
position-get_or (x ∷ xs) (suc p) c h =
    ground (arith, c x, count-get_or xs p, position-get_or xs p (λ a. omega (arith, c a)))

module _ {n : ℕ} {xs : List ℕ} (c : IsCycle n xs) where
  -- Each index of the queue has a place in the cycle, and the cycle has it there.
  pub index_of_int-cycle :
      (a : ℕ) → a < n → (p : ℕ) × (index_of_int xs (pos a) ≡ some p) × (p < n) × (get_or xs p 0 ≡ a)
  unfolding index_of_int
  index_of_int-cycle a h = elim (Option-cases (position xs a)) [
    | inl e ↦ absurd (ground (arith, position_missing xs a e, c.counted a))
    | inr (p, e) ↦ let f = position_found xs a p e in (p, e, omega (arith, f.0, c.sized), f.1)
  ]

  -- The other way round, the place of what stands at `p` is `p`.
  pub index_of_int-get_or : (p : ℕ) → p < n → index_of_int xs (pos (get_or xs p 0)) ≡ some p
  unfolding index_of_int
  index_of_int-get_or p h =
      position-get_or xs p (λ a. ground (arith, c.counted a)) (omega (arith, c.sized))

  pub get_or-cycle-lt : (p : ℕ) → p < n → get_or xs p 0 < n
  get_or-cycle-lt p h = ground (arith, count-get_or xs p, c.counted (get_or xs p 0), c.sized)

pub index_of_int_bound : (xs : List ℕ) (i : ℤ) {p : ℕ} → index_of_int xs i ≡ some p → p < length xs
unfolding index_of_int
index_of_int_bound xs (pos a) {p} h = (position_found xs a p h).0
index_of_int_bound xs (negsuc a) h = cc
