-- ===== src/Json/Order.antt =====
-- The order of texts by which `.sort()` orders keys: by the characters' numbers. (JavaScript compares
-- UTF-16 units, which is the same order on texts without characters beyond U+FFFF.)
use Prim.Native.Char.{code}
use text.Mathlib.TextEquality.{Char-path}
use dsh_assistant.Prelude.{String, ◌≡◌, refl, Bool, true, false, arith, ltb, if◌then◌else◌}

unfoldable pub text_leb : String → String → Bool
text_leb String.[] t = true
text_leb (String.◌∷◌ c s) String.[] = false
text_leb (String.◌∷◌ c s) (String.◌∷◌ d t) =
    let rest = text_leb s t in
    if ltb (code c) (code d) then true else if ltb (code d) (code c) then false else rest

pub text_leb_total : (s t : String) → text_leb s t ≡ false → text_leb t s ≡ true
unfolding text_leb
text_leb_total String.[] t h = ground arith
text_leb_total (String.◌∷◌ c s) String.[] h = refl
text_leb_total (String.◌∷◌ c s) (String.◌∷◌ d t) h = ground (arith, text_leb_total s t)

pub text_leb_trans :
    (s t u : String) → text_leb s t ≡ true → text_leb t u ≡ true → text_leb s u ≡ true
unfolding text_leb
text_leb_trans String.[] t u h k = refl
text_leb_trans (String.◌∷◌ c s) String.[] u h k = ground arith
text_leb_trans (String.◌∷◌ c s) (String.◌∷◌ d t) String.[] h k = ground arith
text_leb_trans (String.◌∷◌ c s) (String.◌∷◌ d t) (String.◌∷◌ e u) h k =
    ground (arith, text_leb_trans s t u)

pub text_leb_antisymm : (s t : String) → text_leb s t ≡ true → text_leb t s ≡ true → s ≡ t
unfolding text_leb
text_leb_antisymm String.[] String.[] h k = refl
text_leb_antisymm String.[] (String.◌∷◌ d t) h k = ground arith
text_leb_antisymm (String.◌∷◌ c s) String.[] h k = ground arith
text_leb_antisymm (String.◌∷◌ c s) (String.◌∷◌ d t) h k =
    ground (arith, Char-path c d, text_leb_antisymm s t)
