-- ===== src/Base/Order.antt =====
-- The order of texts by code points, as a database compares them.
use Prim.Native.Char.{code}
use Prim.Native.String.{String}
use mathlib.Core.Path.{◌≡◌, refl}
use mathlib.Core.Bool.{Bool, true, false, ◌&&◌, ◌||◌}
use native.Mathlib.Omega.{arith}
use text.Mathlib.TextEquality.{Char-path}
use ben_desktop.Base.Tests.{◌==◌, ltb}

unfoldable pub str_ltb : String → String → Bool
str_ltb String.[] String.[] = false
str_ltb String.[] (String.◌∷◌ d t) = true
str_ltb (String.◌∷◌ c s) String.[] = false
str_ltb (String.◌∷◌ c s) (String.◌∷◌ d t) =
    ltb (code c) (code d) || (code c == code d && str_ltb s t)

pub str_ltb_irrefl : (s : String) → str_ltb s s ≡ false
unfolding str_ltb
str_ltb_irrefl String.[] = refl
str_ltb_irrefl (String.◌∷◌ c s) = ground (arith, str_ltb_irrefl s)

pub str_ltb_trans : (s t u : String) → str_ltb s t ≡ true → str_ltb t u ≡ true → str_ltb s u ≡ true
unfolding str_ltb
str_ltb_trans s String.[] String.[] h k = absurd (ground arith)
str_ltb_trans String.[] String.[] (String.◌∷◌ e u) h k = refl
str_ltb_trans (String.◌∷◌ c s) String.[] (String.◌∷◌ e u) h k = absurd (ground arith)
str_ltb_trans s (String.◌∷◌ d t) String.[] h k = absurd (ground arith)
str_ltb_trans String.[] (String.◌∷◌ d t) (String.◌∷◌ e u) h k = refl
str_ltb_trans (String.◌∷◌ c s) (String.◌∷◌ d t) (String.◌∷◌ e u) h k =
    let ih : str_ltb s t ≡ true → str_ltb t u ≡ true → str_ltb s u ≡ true = str_ltb_trans s t u in
    ground (arith, ih)

pub str_ltb_total : (s t : String) → str_ltb s t ≡ false → str_ltb t s ≡ false → s ≡ t
unfolding str_ltb
str_ltb_total String.[] String.[] h k = refl
str_ltb_total String.[] (String.◌∷◌ d t) h k = absurd (ground arith)
str_ltb_total (String.◌∷◌ c s) String.[] h k = absurd (ground arith)
str_ltb_total (String.◌∷◌ c s) (String.◌∷◌ d t) h k =
    let same : code c ≡ code d = ground arith in
    let e = Char-path c d same in
    let r = str_ltb_total s t (ground arith) (ground arith) in λ i. String.◌∷◌ (e i) (r i)
