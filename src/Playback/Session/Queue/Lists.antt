-- ===== src/Playback/Session/Queue/Lists.antt =====
-- internal/playback/session.go: what a removal and an insertion do to the places of the others.
use ben_desktop.Base.{
  ℕ, zero, suc, ◌≤◌, ◌<◌, ◌≡◌, refl, sym, ap, ◌∙◌, inl, inr, String, Option, none, some, List, [],
  ◌∷◌, ◌++◌, length, take, drop, All, ◌≢◌, false, get_elem?, get_or, remove_at, insert_at,
  length-remove_at, get_elem?-get_or, arith, str_eq, str_eq_iff, trim_space, Bool-cases,
}
use ben_desktop.Playback.Types.{SessionEntry, zero_entry}
use ben_desktop.Playback.Normalize.{option_map}
use ben_desktop.Playback.Session.{index_of_entry_id}
use ben_desktop.Playback.Session.Queue.{move_entry}

module _ {ℓ} {A : Type ℓ} where
  pub get_elem?-remove_at_lt :
      (xs : List A) (k i : ℕ) → i < k → get_elem? (remove_at xs k) i ≡ get_elem? xs i
  get_elem?-remove_at_lt [] k i h = refl
  get_elem?-remove_at_lt (x ∷ xs) zero i h = absurd (omega arith)
  get_elem?-remove_at_lt (x ∷ xs) (suc k) zero h = refl
  get_elem?-remove_at_lt (x ∷ xs) (suc k) (suc i) h = get_elem?-remove_at_lt xs k i (omega arith)

  pub get_elem?-remove_at_ge :
      (xs : List A) (k i : ℕ) → k ≤ i → get_elem? (remove_at xs k) i ≡ get_elem? xs (suc i)
  get_elem?-remove_at_ge [] k i h = refl
  get_elem?-remove_at_ge (x ∷ xs) zero i h = refl
  get_elem?-remove_at_ge (x ∷ xs) (suc k) zero h = absurd (omega arith)
  get_elem?-remove_at_ge (x ∷ xs) (suc k) (suc i) h = get_elem?-remove_at_ge xs k i (omega arith)

  pub get_elem?-insert_at_lt :
      (xs : List A) (k i : ℕ) (v : A)
      → i < k
      → k ≤ length xs
      → get_elem? (insert_at xs k v) i ≡ get_elem? xs i
  get_elem?-insert_at_lt xs zero i v h b = absurd (omega arith)
  get_elem?-insert_at_lt [] (suc k) i v h b = absurd (omega arith)
  get_elem?-insert_at_lt (x ∷ xs) (suc k) zero v h b = refl
  get_elem?-insert_at_lt (x ∷ xs) (suc k) (suc i) v h b =
      get_elem?-insert_at_lt xs k i v (omega arith) (omega arith)

  pub get_elem?-insert_at_self :
      (xs : List A) (k : ℕ) (v : A) → k ≤ length xs → get_elem? (insert_at xs k v) k ≡ some v
  get_elem?-insert_at_self xs zero v b = refl
  get_elem?-insert_at_self [] (suc k) v b = absurd (omega arith)
  get_elem?-insert_at_self (x ∷ xs) (suc k) v b = get_elem?-insert_at_self xs k v (omega arith)

  pub get_elem?-insert_at_ge :
      (xs : List A) (k i : ℕ) (v : A)
      → k ≤ i
      → k ≤ length xs
      → get_elem? (insert_at xs k v) (suc i) ≡ get_elem? xs i
  get_elem?-insert_at_ge xs zero i v h b = refl
  get_elem?-insert_at_ge [] (suc k) i v h b = absurd (omega arith)
  get_elem?-insert_at_ge (x ∷ xs) (suc k) zero v h b = absurd (omega arith)
  get_elem?-insert_at_ge (x ∷ xs) (suc k) (suc i) v h b =
      get_elem?-insert_at_ge xs k i v (omega arith) (omega arith)

  pub remove_at-insert_at :
      (xs : List A) (k : ℕ) (v : A) → k ≤ length xs → remove_at (insert_at xs k v) k ≡ xs
  remove_at-insert_at xs zero v b = refl
  remove_at-insert_at [] (suc k) v b = absurd (omega arith)
  remove_at-insert_at (x ∷ xs) (suc k) v b =
      ap (λ l. x ∷ l) (remove_at-insert_at xs k v (omega arith))

  pub remove_at-append :
      (xs ys : List A) (v : A) → remove_at (xs ++ (v ∷ ys)) (length xs) ≡ xs ++ ys
  remove_at-append [] ys v = refl
  remove_at-append (x ∷ xs) ys v = ap (λ l. x ∷ l) (remove_at-append xs ys v)

  pub get_or-append : (xs ys : List A) (v d : A) → get_or (xs ++ (v ∷ ys)) (length xs) d ≡ v
  get_or-append [] ys v d = refl
  get_or-append (x ∷ xs) ys v d = get_or-append xs ys v d

  pub insert_at-take :
      (xs : List A) (k : ℕ) (v : A)
      → k ≤ length xs
      → insert_at xs k v ≡ take k xs ++ (v ∷ drop k xs)
  insert_at-take xs zero v b = refl
  insert_at-take [] (suc k) v b = absurd (omega arith)
  insert_at-take (x ∷ xs) (suc k) v b = ap (λ l. x ∷ l) (insert_at-take xs k v (omega arith))

  pub get_elem?-append_left :
      (xs ys : List A) (i : ℕ) {v : A} → get_elem? xs i ≡ some v → get_elem? (xs ++ ys) i ≡ some v
  get_elem?-append_left [] ys i h = cc
  get_elem?-append_left (x ∷ xs) ys zero h = h
  get_elem?-append_left (x ∷ xs) ys (suc i) h = get_elem?-append_left xs ys i h

shifted : (o : Option ℕ) (k : ℕ) → option_map suc o ≡ some k → (j : ℕ) × (o ≡ some j) × (k ≡ suc j)
shifted none k h = cc
shifted (some j) k h = (j, refl, cc)

unshifted : {o : Option ℕ} → option_map suc o ≡ none → o ≡ none
unshifted {o = none} h = refl
unshifted {o = some j} h = cc

-- The index that is found is in range, and the entry there has the id that was asked for.
pub index_of_entry_id_found :
    (queue : List SessionEntry) (id : String) (k : ℕ)
    → index_of_entry_id queue id ≡ some k
    → (k < length queue) × ((get_or queue k zero_entry).entry_id ≡ trim_space id)
unfolding index_of_entry_id
index_of_entry_id_found [] id k h = cc
index_of_entry_id_found (e ∷ rest) id k h = elim (Bool-cases (str_eq e.entry_id (trim_space id))) [
  | inl same ↦
      let here : k ≡ 0 = ground (arith, rw same at h) in
      rw here (omega arith, (str_eq_iff e.entry_id (trim_space id)).0 same)
  | inr other ↦
      let (j, found, later) = shifted (index_of_entry_id rest id) k (rw other at h) in
      let (lt, same) = index_of_entry_id_found rest id j found in rw later (omega arith, same)
]

abbrev pub IsOther : String → SessionEntry → Type 0
IsOther id e = e.entry_id ≢ trim_space id

-- The queue has an entry with the id, this is the first one, and these stand before and behind it.
pub record IsFirst (id : String) (queue before : List SessionEntry) (e : SessionEntry)
    (after : List SessionEntry) : Type 0 where
  pub parts : queue ≡ before ++ (e ∷ after)
  pub named : e.entry_id ≡ trim_space id
  pub others : All (IsOther id) before

is_other :
    (e : SessionEntry) (id : String) → str_eq e.entry_id (trim_space id) ≡ false → IsOther id e
is_other e id h same = absurd (ground (arith, h, (str_eq_iff e.entry_id (trim_space id)).1 same))

pub index_of_entry_id-none :
    (queue : List SessionEntry) (id : String)
    → index_of_entry_id queue id ≡ none
    → All (IsOther id) queue
unfolding index_of_entry_id
index_of_entry_id-none [] id h = tt
index_of_entry_id-none (e ∷ rest) id h = elim (Bool-cases (str_eq e.entry_id (trim_space id))) [
  | inl same ↦ absurd (ground (arith, rw same at h))
  | inr other ↦ (is_other e id other, index_of_entry_id-none rest id (unshifted (rw other at h)))
]

pub index_of_entry_id-IsFirst :
    (queue : List SessionEntry) (id : String) (k : ℕ)
    → index_of_entry_id queue id ≡ some k
    → (before : List SessionEntry) × (e : SessionEntry) × (after : List SessionEntry) × IsFirst id
        queue before e after
      × (k ≡ length before)
unfolding index_of_entry_id
index_of_entry_id-IsFirst [] id k h = cc
index_of_entry_id-IsFirst (e ∷ rest) id k h =
    elim (Bool-cases (str_eq e.entry_id (trim_space id))) [
      | inl same ↦ (
        [],
        e,
        rest,
        record {
          parts = refl;
          named = (str_eq_iff e.entry_id (trim_space id)).0 same;
          others = tt;
        },
        ground (arith, rw same at h),
      )
      | inr other ↦
          let (j, found, later) = shifted (index_of_entry_id rest id) k (rw other at h) in
          let (before, x, after, first, at) = index_of_entry_id-IsFirst rest id j found in
          (
            e ∷ before,
            x,
            after,
            record {
              parts = ap (λ l. e ∷ l) first.parts;
              named = first.named;
              others = (is_other e id other, first.others);
            },
            omega (arith, later, at),
          )
    ]

-- A move from an index in range to another one in range puts the entry at its new place and leaves the
-- others in their order.
pub move_entry_lem :
    (queue : List SessionEntry) (from to : ℕ)
    → from < length queue
    → to < length queue
    → (get_elem? (move_entry queue from to) to ≡ get_elem? queue from)
      × (remove_at (move_entry queue from to) to ≡ remove_at queue from)
unfolding move_entry
move_entry_lem queue from to f t =
    let fits : to ≤ length (remove_at queue from) = omega (arith, length-remove_at queue from f) in
    (
      get_elem?-insert_at_self (remove_at queue from) to (get_or queue from zero_entry) fits
          ∙ sym (get_elem?-get_or queue from zero_entry f),
      remove_at-insert_at (remove_at queue from) to (get_or queue from zero_entry) fits,
    )
