-- ===== src/Desktopcore/Apply/Rows.antt =====
-- internal/desktopcore/oplog_apply.go: what the writes of a handler leave to be read.
use ben_desktop.Base.{
  ◌≡◌, refl, ap, ◌∙◌, inl, inr, Bool, true, false, Option, none, some, List, [], ◌∷◌, if◌then◌else◌,
  Bool-cases,
}
use ben_desktop.Desktopcore.Apply.{upsert, update_where, take_row}

abbrev pub option_or {ℓ} : {A : Type ℓ} → Option A → A → (A → A) → A
option_or none d f = d
option_or (some a) d f = f a

abbrev pub mapped {ℓ} : {A : Type ℓ} → (A → A) → Option A → Option A
mapped f none = none
mapped f (some a) = some (f a)

module _ {ℓ} {A : Type ℓ} (hit : A → Bool) (update : A → A) where
  pub take_row-upsert :
      (row : A) (rows : List A)
      → hit row ≡ true
      → ((x : A) → hit (update x) ≡ hit x)
      → take_row hit (upsert hit update row rows) ≡ some (option_or (take_row hit rows) row update)
  unfolding take_row upsert
  take_row-upsert row [] here same = rw here refl
  take_row-upsert row (x ∷ rows) here same = elim (Bool-cases (hit x)) [
    | inl found ↦ let again : hit (update x) ≡ true = same x ∙ found in rw found (rw again refl)
    | inr other ↦ rw other (rw other (take_row-upsert row rows here same))
  ]

  -- A row that the test does not meet is not touched.
  pub take_row-upsert_other :
      (look : A → Bool) (row : A) (rows : List A)
      → look row ≡ false
      → ((x : A) → hit x ≡ true → look x ≡ false)
      → ((x : A) → look (update x) ≡ look x)
      → take_row look (upsert hit update row rows) ≡ take_row look rows
  unfolding take_row upsert
  take_row-upsert_other look row [] away apart same = rw away refl
  take_row-upsert_other look row (x ∷ rows) away apart same = elim (Bool-cases (hit x)) [
    | inl found ↦
        let miss = apart x found in
        let again : look (update x) ≡ false = same x ∙ miss in rw found (rw again (rw miss refl))
    | inr other ↦ rw other (
        ap (λ r. if look x then some x else r)
          (take_row-upsert_other look row rows away apart same))
  ]

  pub take_row-update :
      (rows : List A)
      → ((x : A) → hit (update x) ≡ hit x)
      → take_row hit (update_where hit update rows) ≡ mapped update (take_row hit rows)
  unfolding take_row update_where
  take_row-update [] same = refl
  take_row-update (x ∷ rows) same = elim (Bool-cases (hit x)) [
    | inl found ↦ let again : hit (update x) ≡ true = same x ∙ found in rw found (rw again refl)
    | inr other ↦ rw other (rw other (take_row-update rows same))
  ]

  pub take_row-update_other :
      (look : A → Bool) (rows : List A)
      → ((x : A) → hit x ≡ true → look x ≡ false)
      → ((x : A) → look (update x) ≡ look x)
      → take_row look (update_where hit update rows) ≡ take_row look rows
  unfolding take_row update_where
  take_row-update_other look [] apart same = refl
  take_row-update_other look (x ∷ rows) apart same = elim (Bool-cases (hit x)) [
    | inl found ↦
        let miss = apart x found in
        let again : look (update x) ≡ false = same x ∙ miss in
        rw found (rw again (rw miss (take_row-update_other look rows apart same)))
    | inr other ↦
        rw other
          (ap (λ r. if look x then some x else r) (take_row-update_other look rows apart same))
  ]
