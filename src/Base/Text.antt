-- ===== src/Base/Text.antt =====
-- Texts as Go has them: `strings.TrimSpace` and the tests on a text.
use Prim.Native.Nat.{ℕ}
use Prim.Native.Char.{code}
use Prim.Native.String.{String}
use mathlib.Core.Path.{◌≡◌, refl}
use mathlib.Core.Bool.{Bool, true, false, ◌&&◌, ◌||◌}
use mathlib.Core.Logic.{◌↔◌, inl, inr}
use text.Mathlib.Text.{◌==◌ as text_eq}
use text.Mathlib.TextEquality.{eq_iff}
use ben_desktop.Base.Tests.{◌==◌, leb, if◌then◌else◌, Bool-cases}

abbrev pub str_eq : String → String → Bool
str_eq = text_eq

pub str_eq_iff : (s t : String) → (str_eq s t ≡ true) ↔ (s ≡ t)
str_eq_iff = eq_iff

pub str_eq_self : (s : String) → str_eq s s ≡ true
str_eq_self s = (eq_iff s s).1 refl

abbrev pub is_blank : String → Bool
is_blank String.[] = true
is_blank (String.◌∷◌ c s) = false

-- `unicode.IsSpace`: the white space of Latin-1, then the category Z beyond it.
unfoldable pub is_space : ℕ → Bool
is_space c =
    (leb 9 c && leb c 13)
    || c == 32
    || c == 0x85
    || c == 0xa0
    || c == 0x1680
    || (leb 0x2000 c && leb c 0x200a)
    || c == 0x2028
    || c == 0x2029
    || c == 0x202f
    || c == 0x205f
    || c == 0x3000

unfoldable pub trim_left : String → String
trim_left String.[] = ""
trim_left (String.◌∷◌ c s) = if is_space (code c) then trim_left s else String.◌∷◌ c s

unfoldable pub trim_right : String → String
trim_right String.[] = ""
trim_right (String.◌∷◌ c s) =
    let rest = trim_right s in if is_blank rest && is_space (code c) then "" else String.◌∷◌ c rest

-- `strings.TrimSpace`
unfoldable pub trim_space : String → String
unfolding trim_left trim_right is_space
trim_space s = trim_right (trim_left s)

trim_space_test : trim_space "  a b " ≡ "a b"
unfolding trim_space
trim_space_test = refl

trim_left-trim_left : (s : String) → trim_left (trim_left s) ≡ trim_left s
unfolding trim_left
trim_left-trim_left String.[] = refl
trim_left-trim_left (String.◌∷◌ c s) = elim (Bool-cases (is_space (code c))) [
  | inl blank ↦ rw blank (trim_left-trim_left s)
  | inr ink ↦ rw ink (rw ink refl)
]

trim_right-trim_right : (s : String) → trim_right (trim_right s) ≡ trim_right s
unfolding trim_right
trim_right-trim_right String.[] = refl
trim_right-trim_right (String.◌∷◌ c s) =
    elim (Bool-cases (is_blank (trim_right s) && is_space (code c))) [
      | inl blank ↦ rw blank refl
      | inr ink ↦ simp (ink, trim_right-trim_right s)
    ]

-- To trim the end leaves a text that starts with ink one that does.
trim_left-trim_right :
    (s : String) → trim_left (trim_right (trim_left s)) ≡ trim_right (trim_left s)
unfolding trim_left trim_right
trim_left-trim_right String.[] = refl
trim_left-trim_right (String.◌∷◌ c s) = elim (Bool-cases (is_space (code c))) [
  | inl blank ↦ rw blank (trim_left-trim_right s)
  | inr ink ↦ elim (Bool-cases (is_blank (trim_right s))) [
    | inl end ↦ simp (ink, end)
    | inr more ↦ simp (ink, more)
  ]
]

pub trim_space-trim_space : (s : String) → trim_space (trim_space s) ≡ trim_space s
unfolding trim_space
trim_space-trim_space s = rw (trim_left-trim_right s) (trim_right-trim_right (trim_left s))

pub trim_space_blank : trim_space "" ≡ ""
unfolding trim_space
trim_space_blank = refl
