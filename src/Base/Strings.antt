-- ===== src/Base/Strings.antt =====
-- C strings: a `char` array is the list of its bytes before the first NUL.
use Prim.Native.Nat.{ℕ, ◌+◌, ◌-◌}
use Prim.Native.Char.{code}
use Prim.Native.String.{String}
use mathlib.Core.Path.{◌≡◌, refl}
use mathlib.Core.Logic.{◌↔◌}
use mathlib.Core.Bool.{Bool, true, false, ◌&&◌}
use mathlib.Core.List.{List, [], ◌∷◌, map}
use native.Mathlib.Omega.{arith}
use rv1126_custom_part.Base.Tests.{ltb, leb, ◌==◌, if◌then◌else◌}
use rv1126_custom_part.Base.Lists.{length, take}

abbrev pub Text : Type 0
Text = List ℕ

-- The bytes of a literal.
abbrev pub codes : String → Text
codes String.[] = []
codes (String.◌∷◌ c s) = code c ∷ codes s

-- strcmp (a, b) == 0
unfoldable pub text_eq : Text → Text → Bool
text_eq [] [] = true
text_eq [] (b ∷ bs) = false
text_eq (a ∷ as') [] = false
text_eq (a ∷ as') (b ∷ bs) = a == b && text_eq as' bs

-- tolower in the C locale.
unfoldable pub to_lower : ℕ → ℕ
to_lower c = if leb 65 c && leb c 90 then c + 32 else c

-- strcasecmp (a, b) == 0
unfoldable pub text_case_eq : Text → Text → Bool
unfolding to_lower text_eq
text_case_eq a b = text_eq (map to_lower a) (map to_lower b)

-- memchr (value, 0, cap) finds the NUL, and the text is not empty.
unfoldable pub bounded_string : Text → ℕ → Bool
bounded_string value cap = ltb (length value) cap && ltb 0 (length value)

-- snprintf (out, cap, "%s", value): the text that the buffer then holds.
unfoldable pub copy_text : ℕ → Text → Text
copy_text cap value = take (cap - 1) value

pub text_eq-true_iff : (a b : Text) → (text_eq a b ≡ true) ↔ (a ≡ b)
unfolding text_eq
text_eq-true_iff [] [] = ground arith
text_eq-true_iff [] (b ∷ bs) = ground arith
text_eq-true_iff (a ∷ as') [] = ground arith
text_eq-true_iff (a ∷ as') (b ∷ bs) = ground (arith, text_eq-true_iff as' bs)

pub text_eq_refl : (a : Text) → text_eq a a ≡ true
text_eq_refl a = (text_eq-true_iff a a).1 refl
