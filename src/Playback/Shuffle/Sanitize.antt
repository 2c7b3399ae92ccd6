-- ===== src/Playback/Shuffle/Sanitize.antt =====
-- internal/playback/session.go, sanitizeShuffleBag: which bags it accepts.
use ben_desktop.Base.{
  ℕ, zero, suc, ◌+◌, ◌≤◌, ◌<◌, ◌≡◌, refl, not, sym, ap, ◌∙◌, ◌⊎◌, inl, inr, Bool, true, false, List,
  [], ◌∷◌, ◌++◌, ◌||◌, map, length, get_or, set, replicate, arith, ltb, leb, ◌==◌, if◌then◌else◌,
  Bool-cases, length-map, length-replicate, length-set,
}
use ben_desktop.Base.Int.{ℤ, pos, negsuc}
use ben_desktop.Base.Count.{IsCycle, count, count-append, count_bound-IsCycle}
use ben_desktop.Playback.Shuffle.{sanitize_loop, sanitize_shuffle_bag}
use mathlib.Core.List.{append_assoc, append-nil}

abbrev indicator : ℕ → ℕ → ℕ
indicator n a = if ltb a n then 1 else 0

get_or-set :
    (xs : List Bool) (i a : ℕ)
    → i < length xs
    → get_or (set xs i true) a false ≡ (if a == i then true else get_or xs a false)
get_or-set [] i a h = elim h [ ]
get_or-set (x ∷ xs) zero zero h = refl
get_or-set (x ∷ xs) zero (suc a) h = ground arith
get_or-set (x ∷ xs) (suc i) zero h = ground arith
get_or-set (x ∷ xs) (suc i) (suc a) h = ground (arith, get_or-set xs i a)

get_or-replicate : (n a : ℕ) → get_or (replicate n false) a false ≡ false
get_or-replicate zero a = refl
get_or-replicate (suc n) zero = refl
get_or-replicate (suc n) (suc a) = get_or-replicate n a

-- What the loop knows of the part of the bag that it has passed.
record Seen (total : ℕ) (seen : List Bool) (out : List ℕ) : Type 0 where
  sized : length seen ≡ total
  marked : (a : ℕ) → get_or seen a false ≡ ltb 0 (count a out)
  once : (a : ℕ) → count a out ≤ indicator total a

Seen-step :
    (total i : ℕ) (seen : List Bool) (out : List ℕ)
    → Seen total seen out
    → (leb total i || get_or seen i false) ≡ false
    → Seen total (set seen i true) (out ++ i ∷ [])
unfolding count
Seen-step total i seen out s h = record {
  sized = length-set seen i true ∙ s.sized;
  marked =
      λ a. ground (arith, get_or-set seen i a, s.marked a, s.sized, count-append a out (i ∷ []));
  once = λ a. ground (arith, s.marked a, s.marked i, s.once a, count-append a out (i ∷ []));
}

abbrev Kept : List ℤ → ℕ → List ℕ → List ℕ → Type 0
Kept bag total out r =
    (xs : List ℕ) × (bag ≡ map pos xs) × (r ≡ out ++ xs) × ((a : ℕ) → count a r ≤ indicator total a)

sanitize_loop-Kept :
    (bag : List ℤ) (total : ℕ) (seen : List Bool) (out : List ℕ)
    → Seen total seen out
    → (sanitize_loop bag total seen out ≡ [])
      ⊎ Kept bag total out (sanitize_loop bag total seen out)
unfolding sanitize_loop
sanitize_loop-Kept [] total seen out s = inr ([], refl, sym (append-nil out), s.once)
sanitize_loop-Kept (negsuc i ∷ bag) total seen out s = inl refl
sanitize_loop-Kept (pos i ∷ bag) total seen out s =
    elim (Bool-cases (leb total i || get_or seen i false)) [
      | inl bad ↦ inl (rw (bad, sanitize_loop))
      | inr good ↦
          elim (sanitize_loop-Kept bag total (set seen i true) (out ++ i ∷ [])
            (Seen-step total i seen out s good)) [
              | inl e ↦ inl (rw (good, sanitize_loop) e)
              | inr (xs, e, k, c) ↦ inr (
                  rw (good, sanitize_loop)
                    (i ∷ xs, ap (◌∷◌ (pos i)) e, k ∙ append_assoc out (i ∷ []) xs, c))
            ]
    ]

Seen-start : (total : ℕ) → Seen total (replicate total false) []
unfolding count
Seen-start total = record {
  sized = length-replicate total false;
  marked = λ a. ground (arith, get_or-replicate total a);
  once = λ a. omega arith;
}

-- Whatever the bag holds, what is kept of it is empty or lists each index of the queue exactly once,
-- and then it is the bag itself.
pub sanitize_shuffle_bag_sound :
    (bag : List ℤ) (total : ℕ)
    → (sanitize_shuffle_bag bag total ≡ [])
      ⊎ (IsCycle total (sanitize_shuffle_bag bag total)
          × (bag ≡ map pos (sanitize_shuffle_bag bag total)))
unfolding sanitize_shuffle_bag
sanitize_shuffle_bag_sound bag total = elim (Bool-cases (total == 0 || not (length bag == total))) [
  | inl bad ↦ inl (rw bad)
  | inr good ↦
      rw good (elim (sanitize_loop-Kept bag total (replicate total false) [] (Seen-start total)) [
        | inl e ↦ inl e
        | inr (xs, b, k, c) ↦ inr (
          count_bound-IsCycle total _ c
              (ground (arith, ap length k, ap length b, length-map pos xs)),
          b ∙ ap (map pos) (sym k),
        )
      ])
]

sanitize_loop_accepts :
    (xs : List ℕ) (total : ℕ) (seen : List Bool) (out : List ℕ)
    → Seen total seen out
    → ((a : ℕ) → count a out + count a xs ≤ indicator total a)
    → sanitize_loop (map pos xs) total seen out ≡ out ++ xs
unfolding sanitize_loop count
sanitize_loop_accepts [] total seen out s h = sym (append-nil out)
sanitize_loop_accepts (i ∷ xs) total seen out s h =
    let fresh : (leb total i || get_or seen i false) ≡ false = ground (arith, h i, s.marked i) in
    rw (fresh, sanitize_loop)
      (sanitize_loop_accepts xs total (set seen i true) (out ++ i ∷ [])
          (Seen-step total i seen out s fresh)
          (λ a. omega (arith, h a, count-append a out (i ∷ [])))
        ∙ append_assoc out (i ∷ []) xs)

-- A bag that lists each index below a positive total once and nothing else is kept as it is.
pub sanitize_shuffle_bag_complete :
    (xs : List ℕ) (total : ℕ)
    → 0 < total
    → IsCycle total xs
    → sanitize_shuffle_bag (map pos xs) total ≡ xs
unfolding sanitize_shuffle_bag count
sanitize_shuffle_bag_complete xs total h c =
    let fits : (total == 0 || not (length (map pos xs) == total)) ≡ false =
      ground (arith, length-map pos xs, c.sized) in
    rw fits (
      sanitize_loop_accepts xs total (replicate total false) [] (Seen-start total)
        (λ a. omega (arith, c.counted a)))
