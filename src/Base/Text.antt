-- ===== src/Base/Text.antt =====
-- `String.prototype.trim`, and equality of optional texts.
use Prim.Native.Char.{Char, code}
use Prim.Native.Nat.{ℕ}
use Prim.Native.String.{String, [], ◌∷◌, ◌++◌}
use mathlib.Core.Path.{◌≡◌, refl}
use mathlib.Core.Logic.{◌↔◌}
use mathlib.Core.Bool.{Bool, true, false, ◌&&◌, ◌||◌}
use mathlib.Core.Option.{Option, none, some}
use mathlib.Core.List.{List, [], ◌∷◌}
use native.Mathlib.Omega.{arith}
use text.Mathlib.Text.{◌==◌}
use text.Mathlib.TextEquality.{eq_iff}
use backend_softlogic.Base.Tests.{eqb, leb, if◌then◌else◌}

-- The white space and line terminators of ECMAScript.
is_space : ℕ → Bool
is_space c =
    (leb 9 c && leb c 13)
    || eqb c 32
    || eqb c 0xa0
    || eqb c 0x1680
    || (leb 0x2000 c && leb c 0x200a)
    || eqb c 0x2028
    || eqb c 0x2029
    || eqb c 0x202f
    || eqb c 0x205f
    || eqb c 0x3000
    || eqb c 0xfeff

trim_start : String → String
trim_start [] = []
trim_start (c ∷ s) = let rest = trim_start s in if is_space (code c) then rest else c ∷ s

trim_end : String → String
trim_end [] = []
trim_end (c ∷ s) = let rest = trim_end s in if rest == "" && is_space (code c) then "" else c ∷ rest

unfoldable pub trim : String → String
unfolding is_space trim_start trim_end
trim s = trim_end (trim_start s)

-- `s?.trim() || d`
unfoldable pub trim_or : Option String → String → String
unfolding trim
trim_or none d = d
trim_or (some s) d = if trim s == "" then d else trim s

trim_sides : trim "  a b\n" ≡ "a b"
unfolding trim
trim_sides = refl

-- `a === b` on `string | null`
abbrev pub same_text : Option String → Option String → Bool
same_text none none = true
same_text (some a) (some b) = a == b
same_text _ _ = false

pub same_text_iff : (a b : Option String) → (same_text a b ≡ true) ↔ (a ≡ b)
same_text_iff none none = ground arith
same_text_iff none (some b) = ground arith
same_text_iff (some a) none = ground arith
same_text_iff (some a) (some b) = ground (arith, eq_iff a b)

-- the text of a template literal
abbrev pub concat_text : String → String → String
concat_text a b = a ++ b

prepend : Char → List String → List String
prepend c [] = (c ∷ "") ∷ []
prepend c (s ∷ ss) = (c ∷ s) ∷ ss

-- `s.split(c)`, where `c` is the code of one character
unfoldable pub split : ℕ → String → List String
unfolding prepend
split c [] = "" ∷ []
split c (x ∷ s) = let rest = split c s in if eqb (code x) c then "" ∷ rest else prepend x rest

split_parts : split 46 "ab.c" ≡ "ab" ∷ "c" ∷ []
unfolding split
split_parts = refl

-- `s?.trim() || null`
unfoldable pub trimmed : Option String → Option String
trimmed none = none
trimmed (some s) = if trim s == "" then none else some (trim s)

pub trimmed-none : trimmed none ≡ none
unfolding trimmed
trimmed-none = refl

pub trimmed_text : (s : String) → (trim s == "") ≡ false → trimmed (some s) ≡ some (trim s)
unfolding trimmed
trimmed_text s h = rw h refl
