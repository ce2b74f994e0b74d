-- ===== src/Base/Text.antt =====
-- Go's strings as lists of Unicode characters, and the functions of package strings that are used.
use Prim.Native.Char.{Char}
use Prim.Native.String.{String, ◌++◌}
use mathlib.Core.Path.{◌≡◌, refl}
use mathlib.Core.Bool.{Bool, false, ◌||◌}
use mathlib.Core.List.{List, [], ◌∷◌}
use text.Mathlib.Text.{◌==◌, starts_with}
use native.Mathlib.Omega.{arith}
use Prim.Native.Nat.{◌<◌}
use mathlib.Core.Logic.{inl, inr}
use cleat_ports.Base.Tests.{if◌then◌else◌, Bool-cases}
use cleat_ports.Base.Lists.{length}

-- `strings.Join(parts, sep)`
unfoldable pub join : List String → String → String
join [] sep = ""
join (p ∷ []) sep = p
join (p ∷ ps) sep = p ++ sep ++ join ps sep

-- `strings.Split(s, ",")`: always one part more than there are commas.
abbrev extend : Char → List String → List String
extend c [] = String.◌∷◌ c "" ∷ []
extend c (p ∷ ps) = String.◌∷◌ c p ∷ ps

unfoldable pub split_commas : String → List String
split_commas String.[] = "" ∷ []
split_commas (String.◌∷◌ c s) =
    let rest = split_commas s in if String.◌∷◌ c "" == "," then "" ∷ rest else extend c rest

-- `strings.Contains(s, t)`
unfoldable pub contains_text : String → String → Bool
contains_text String.[] t = starts_with "" t
contains_text (String.◌∷◌ c s) t = starts_with (String.◌∷◌ c s) t || contains_text s t

-- Whether a text is an element of a slice, or a key of a map to true.
unfoldable pub contains : List String → String → Bool
contains [] a = false
contains (x ∷ xs) a = x == a || contains xs a

length-extend : (c : Char) (ps : List String) → 0 < length (extend c ps)
length-extend c [] = omega arith
length-extend c (p ∷ ps) = omega arith

pub length-split_commas : (s : String) → 0 < length (split_commas s)
unfolding split_commas
length-split_commas String.[] = omega arith
length-split_commas (String.◌∷◌ c s) = elim (Bool-cases (String.◌∷◌ c "" == ",")) [
  | inl e ↦ rw (e) (omega arith)
  | inr e ↦ rw (e) (length-extend c (split_commas s))
]

split_three : split_commas "a,,bc" ≡ "a" ∷ "" ∷ "bc" ∷ []
unfolding split_commas
split_three = refl

split_empty : split_commas "" ≡ "" ∷ []
unfolding split_commas
split_empty = refl

join_three : join ("a" ∷ "b" ∷ "c" ∷ []) "," ≡ "a,b,c"
unfolding join
join_three = refl
