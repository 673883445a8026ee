-- ===== src/Prelude/Strings.antt =====
-- Equality tests on strings.
use Prim.Native.String.{String}
use mathlib.Core.Path.{◌≡◌, refl}
use mathlib.Core.Bool.{true, false}
use text.Mathlib.Text.{◌==◌ as str_eq}
use text.Mathlib.TextEquality.{eq_iff as str_eq_iff}

pub str_eq_refl : (s : String) → str_eq s s ≡ true
str_eq_refl s = (str_eq_iff s s).1 refl

-- What equals one string does not equal another.
pub str_eq_apart : (a b id : String) → str_eq a b ≡ false → str_eq b id ≡ true → str_eq a id ≡ false
str_eq_apart a b id h k = rw (← (str_eq_iff b id).0 k) h
