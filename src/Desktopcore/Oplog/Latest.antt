-- ===== src/Desktopcore/Oplog/Latest.antt =====
-- internal/desktopcore/oplog_apply.go: the latest operation on an entity.
use ben_desktop.Base.{
  ◌≡◌, ◌≢◌, ◌↔◌, sym, ap, subst, ◌∙◌, ◌⊎◌, inl, inr, true, false, Option, none, some, List, [], ◌∷◌,
  arith, str_eq_iff, Bool-cases, Option-cases,
}
use ben_desktop.Base.Order.{str_ltb_irrefl, str_ltb_trans, str_ltb_total}
use ben_desktop.Desktopcore.Oplog.{OplogEntry, Entity, is_about, is_newer, newest, latest_row}

-- A row is stored.
abbrev pub Stored : OplogEntry → List OplogEntry → Type 0
Stored e [] = ⊥
Stored e (x ∷ log) = (e ≡ x) ⊎ Stored e log

pub is_newer_trans :
    (a b c : OplogEntry) → is_newer a b ≡ true → is_newer b c ≡ true → is_newer a c ≡ true
unfolding is_newer
is_newer_trans a b c h k = ground (arith, str_ltb_trans c.op_id b.op_id a.op_id)

newest-cases :
    (e m : OplogEntry) (o : Option OplogEntry) → newest e o ≡ some m → (e ≡ m) ⊎ (o ≡ some m)
unfolding newest
newest-cases e m none h = inl (cc h)
newest-cases e m (some best) h = elim (Bool-cases (is_newer e best)) [
  | inl n ↦ inl (ground (arith, n, h))
  | inr n ↦ inr (ground (arith, n, h))
]

pub latest_row-Stored :
    (log : List OplogEntry) (k : Entity) (m : OplogEntry)
    → latest_row log k ≡ some m
    → Stored m log × (is_about k m ≡ true)
unfolding latest_row
latest_row-Stored [] k m h = absurd (ground arith)
latest_row-Stored (e ∷ log) k m h = elim (Bool-cases (is_about k e)) [
  | inl about ↦ elim (newest-cases e m (latest_row log k) (rw about at h)) [
    | inl same ↦ (inl (sym same), subst (λ x. is_about k x ≡ true) same about)
    | inr older ↦ let ih = latest_row-Stored log k m older in (inr ih.0, ih.1)
  ]
  | inr other ↦ let ih = latest_row-Stored log k m (rw other at h) in (inr ih.0, ih.1)
]

-- The latest row of a longer log is the new one, or the latest one was so before.
pub latest_row-cons :
    (e m : OplogEntry) (log : List OplogEntry) (k : Entity)
    → latest_row (e ∷ log) k ≡ some m
    → (e ≡ m) ⊎ (latest_row log k ≡ some m)
unfolding latest_row
latest_row-cons e m log k h = elim (Bool-cases (is_about k e)) [
  | inl about ↦ newest-cases e m (latest_row log k) (rw about at h)
  | inr other ↦ inr (rw other at h)
]

pub latest_row-tail :
    (e : OplogEntry) (log : List OplogEntry) (k : Entity)
    → latest_row (e ∷ log) k ≡ none
    → latest_row log k ≡ none
unfolding latest_row newest
latest_row-tail e log k h = elim (Option-cases (latest_row log k)) [
  | inl gone ↦ gone
  | inr (best, found) ↦ absurd (ground (arith, found, h))
]

is_newer_irrefl : (e : OplogEntry) → is_newer e e ≡ false
unfolding is_newer
is_newer_irrefl e = ground (arith, str_ltb_irrefl e.op_id)

-- Where a row is about the entity, there is a latest one.
pub latest_row-found :
    (log : List OplogEntry) (k : Entity) (x : OplogEntry)
    → Stored x log
    → is_about k x ≡ true
    → latest_row log k ≢ none
unfolding latest_row newest
latest_row-found [] k x s a h = elim s [ ]
latest_row-found (e ∷ log) k x s a h = elim (Bool-cases (is_about k e)) [
  | inl about ↦ elim (Option-cases (latest_row log k)) [
    | inl gone ↦ absurd (ground (arith, about, gone, h))
    | inr (best, found) ↦ absurd (ground (arith, about, found, h))
  ]
  | inr other ↦ elim s [
    | inl same ↦ absurd (ground (arith, subst (λ y. is_about k y ≡ true) same a))
    | inr older ↦ latest_row-found log k x older a (rw other at h)
  ]
]

-- The choice of `newest` is at least as new as both.
newest-bounds :
    (e m x : OplogEntry) (o : Option OplogEntry)
    → newest e o ≡ some m
    → (x ≡ e) ⊎ ((best : OplogEntry) × (o ≡ some best) × (is_newer x best ≡ false))
    → is_newer x m ≡ false
unfolding newest
newest-bounds e m x none h (inl same) =
    let is : e ≡ m = cc h in subst (λ y. is_newer y m ≡ false) (sym (same ∙ is)) (is_newer_irrefl m)
newest-bounds e m x none h (inr (best, found, older)) = absurd (ground arith)
newest-bounds e m x (some b) h c = elim (Bool-cases (is_newer e b)) [
  | inl n ↦
      let is : e ≡ m = ground (arith, n, h) in
      elim c [
        | inl same ↦ subst (λ y. is_newer y m ≡ false) (sym (same ∙ is)) (is_newer_irrefl m)
        | inr (best, found, older) ↦
            let is_best : b ≡ best = cc found in
            subst (λ y. is_newer x y ≡ false) is
              (ground (
                arith,
                n,
                older,
                is_newer_trans x e b,
                subst (λ y. is_newer x y ≡ false) (sym is_best) older,
              ))
      ]
  | inr n ↦
      let is : b ≡ m = ground (arith, n, h) in
      subst (λ y. is_newer x y ≡ false) is
        (elim c [
          | inl same ↦ subst (λ y. is_newer y b ≡ false) (sym same) n
          | inr (best, found, older) ↦
              let is_best : b ≡ best = cc found in
              subst (λ y. is_newer x y ≡ false) (sym is_best) older
        ])
]

pub latest_row_newest :
    (log : List OplogEntry) (k : Entity) (m x : OplogEntry)
    → latest_row log k ≡ some m
    → Stored x log
    → is_about k x ≡ true
    → is_newer x m ≡ false
unfolding latest_row
latest_row_newest [] k m x h s a = elim s [ ]
latest_row_newest (e ∷ log) k m x h s a = elim (Bool-cases (is_about k e)) [
  | inl about ↦ newest-bounds e m x (latest_row log k) (rw about at h) (elim s [
    | inl same ↦ inl same
    | inr older ↦ elim (Option-cases (latest_row log k)) [
      | inl gone ↦ absurd (latest_row-found log k x older a gone)
      | inr (best, found) ↦ inr (best, found, latest_row_newest log k best x found older a)
    ]
  ])
  | inr other ↦ elim s [
    | inl same ↦ absurd (ground (arith, subst (λ y. is_about k y ≡ true) same a))
    | inr older ↦ latest_row_newest log k m x (rw other at h) older a
  ]
]

-- Neither of two rows is newer: they agree on the time and the identifier.
pub is_newer_total :
    (a b : OplogEntry)
    → is_newer a b ≡ false
    → is_newer b a ≡ false
    → (a.tsns ≡ b.tsns) × (a.op_id ≡ b.op_id)
unfolding is_newer
is_newer_total a b h k =
    let same : a.tsns ≡ b.tsns = ground arith in
    (same, str_ltb_total a.op_id b.op_id (ground (arith, same)) (ground (arith, same)))

abbrev pub IsSameSet : List OplogEntry → List OplogEntry → Type 0
IsSameSet log other = (x : OplogEntry) → Stored x log ↔ Stored x other

-- No two rows of a library have the same identifier.
abbrev pub HasUniqueIds : List OplogEntry → Type 0
HasUniqueIds log =
    (x y : OplogEntry)
    → Stored x log
    → Stored y log
    → x.library_id ≡ y.library_id
    → x.op_id ≡ y.op_id
    → x ≡ y

pub is_about-library :
    (k : Entity) (x : OplogEntry) → is_about k x ≡ true → x.library_id ≡ k.library_id
is_about-library k x a = (str_eq_iff x.library_id k.library_id).0 (ground arith)

-- Which operation is the latest depends on the set of the stored rows only.
pub latest_row-set :
    (log other : List OplogEntry) (k : Entity) (m : OplogEntry)
    → HasUniqueIds log
    → IsSameSet log other
    → latest_row log k ≡ some m
    → latest_row other k ≡ some m
latest_row-set log other k m u same h =
    let stored = latest_row-Stored log k m h in
    let there = (same m).0 stored.0 in
    elim (Option-cases (latest_row other k)) [
      | inl gone ↦ absurd (latest_row-found other k m there stored.1 gone)
      | inr (n, found) ↦
          let theirs = latest_row-Stored other k n found in
          let here = (same n).1 theirs.0 in
          let agree =
            is_newer_total m n (latest_row_newest other k n m found there stored.1)
              (latest_row_newest log k m n h here theirs.1) in
          found
          ∙ ap some (
              sym (
                u m n stored.0 here
                  (is_about-library k m stored.1 ∙ sym (is_about-library k n theirs.1)) agree.1))
    ]
