-- ===== src/Base/Count.antt =====
-- How often a number stands in a list, and lists that hold each number below a bound once.
use Prim.Native.Nat.{ℕ, zero, suc, ◌+◌, ◌<◌, ◌≤◌}
use mathlib.Core.Path.{◌≡◌, refl}
use mathlib.Core.List.{List, [], ◌∷◌, ◌++◌}
use mathlib.Core.Option.{some}
use native.Mathlib.Omega.{arith}
use ben_desktop.Base.Tests.{ltb, ◌==◌, if◌then◌else◌}
use ben_desktop.Base.Lists.{length, get_elem?, get_or, set, remove_at}

-- 1 where the two agree.
abbrev pub unit_at : ℕ → ℕ → ℕ
unit_at x a = if x == a then 1 else 0

unfoldable pub count : ℕ → List ℕ → ℕ
count a [] = 0
count a (x ∷ xs) = unit_at x a + count a xs

pub count-append : (a : ℕ) (xs ys : List ℕ) → count a (xs ++ ys) ≡ count a xs + count a ys
unfolding count
count-append a [] ys = omega arith
count-append a (x ∷ xs) ys = omega (arith, count-append a xs ys)

pub count-remove_at :
    (a : ℕ) (xs : List ℕ) (i d : ℕ)
    → i < length xs
    → unit_at (get_or xs i d) a + count a (remove_at xs i) ≡ count a xs
unfolding count
count-remove_at a [] i d h = elim h [ ]
count-remove_at a (x ∷ xs) zero d h = refl
count-remove_at a (x ∷ xs) (suc i) d h = omega (arith, count-remove_at a xs i d (omega arith))

pub count-set :
    (a : ℕ) (xs : List ℕ) (i v : ℕ) {x : ℕ}
    → get_elem? xs i ≡ some x
    → count a (set xs i v) + unit_at x a ≡ count a xs + unit_at v a
unfolding count
count-set a [] i v h = cc
count-set a (y ∷ xs) zero v h = ground arith
count-set a (y ∷ xs) (suc i) v h = omega (arith, count-set a xs i v h)

-- The indices `0 .. n-1`, each once and nothing else.
pub record IsCycle (n : ℕ) (xs : List ℕ) : Type 0 where
  pub counted : (a : ℕ) → count a xs ≡ (if ltb a n then 1 else 0)
  pub sized : length xs ≡ n

-- How many elements lie below the bound.
below_sum : ℕ → List ℕ → ℕ
below_sum zero xs = 0
below_sum (suc n) xs = count n xs + below_sum n xs

below_sum-nil : (n : ℕ) → below_sum n [] ≡ 0
unfolding below_sum count
below_sum-nil zero = refl
below_sum-nil (suc n) = omega (arith, below_sum-nil n)

below_sum-cons :
    (n x : ℕ) (xs : List ℕ) → below_sum n (x ∷ xs) ≡ (if ltb x n then 1 else 0) + below_sum n xs
unfolding below_sum count
below_sum-cons zero x xs = ground arith
below_sum-cons (suc n) x xs = ground (arith, below_sum-cons n x xs)

-- If no element reaches the bound, all of them are counted.
below_sum-length :
    (n : ℕ) (xs : List ℕ) → ((a : ℕ) → n ≤ a → count a xs ≡ 0) → below_sum n xs ≡ length xs
unfolding count
below_sum-length n [] h = below_sum-nil n
below_sum-length n (x ∷ xs) h =
    ground (arith, h x, below_sum-cons n x xs, below_sum-length n xs (λ a p. omega (arith, h a p)))

below_sum-le : (n : ℕ) (xs : List ℕ) → ((a : ℕ) → count a xs ≤ 1) → below_sum n xs ≤ n
unfolding below_sum
below_sum-le zero xs h = omega arith
below_sum-le (suc n) xs h = omega (arith, h n, below_sum-le n xs h)

-- If the sum is as large as it can be, every number below the bound occurs.
below_sum_full :
    (n : ℕ) (xs : List ℕ) (a : ℕ)
    → ((b : ℕ) → count b xs ≤ 1)
    → n ≤ below_sum n xs
    → a < n
    → count a xs ≡ 1
unfolding below_sum
below_sum_full zero xs a h s lt = absurd (omega arith)
below_sum_full (suc n) xs a h s lt =
    ground (arith, h n, below_sum-le n xs h, below_sum_full n xs a h)

-- The pigeonhole: as many elements as the bound, none twice and none too large.
pub count_bound-IsCycle :
    (n : ℕ) (xs : List ℕ)
    → ((a : ℕ) → count a xs ≤ (if ltb a n then 1 else 0))
    → length xs ≡ n
    → IsCycle n xs
count_bound-IsCycle n xs h e = record {
  counted = λ a. ground (
    arith,
    h a,
    below_sum-length n xs (λ b p. ground (arith, h b)),
    below_sum_full n xs a (λ b. ground (arith, h b)),
  );
  sized = e;
}

pub count_bound-length :
    (n : ℕ) (xs : List ℕ) → ((a : ℕ) → count a xs ≤ (if ltb a n then 1 else 0)) → length xs ≤ n
count_bound-length n xs h = omega (
  arith,
  below_sum-length n xs (λ b p. ground (arith, h b)),
  below_sum-le n xs (λ b. ground (arith, h b)),
)
