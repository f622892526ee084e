-- ===== src/Prelude/Text.antt =====
-- JavaScript strings as lists of UTF-16 code units, and the built-in operations on them that the
-- program calls. A literal of the source becomes such a list by `codes`: no literal that the
-- program compares or prints lies outside the basic plane.
pub mod Laws
pub mod Trim
use Prim.Native.Char.{code}
use Prim.Native.String.{String}
use Prim.Native.Nat.{ℕ, ◌+◌, ◌-◌}
use mathlib.Core.Bool.{Bool, true, false, ◌&&◌, ◌||◌}
use mathlib.Core.Option.{Option, none, some}
use mathlib.Core.List.{List, [], ◌∷◌, ◌++◌, map, reverse}
use fintech_innova_hack.Prelude.Tests.{leb, ◌==◌, if◌then◌else◌}

abbrev pub Text : Type 0
Text = List ℕ

abbrev pub codes : String → Text
codes String.[] = []
codes (String.◌∷◌ c s) = code c ∷ codes s

-- `a === b`
unfoldable pub text_eq : Text → Text → Bool
text_eq [] [] = true
text_eq [] (d ∷ t) = false
text_eq (c ∷ s) [] = false
text_eq (c ∷ s) (d ∷ t) = c == d && text_eq s t

-- `s.startsWith(prefix)`, the prefix first
unfoldable pub starts_with : Text → Text → Bool
starts_with [] s = true
starts_with (p ∷ ps) [] = false
starts_with (p ∷ ps) (c ∷ s) = p == c && starts_with ps s

-- `s.includes(part)`, the part first
unfoldable pub includes : Text → Text → Bool
unfolding starts_with
includes part [] = starts_with part []
includes part (c ∷ s) = starts_with part (c ∷ s) || includes part s

-- `toLowerCase`, on the letters whose lower case is an ASCII letter: A to Z, and the Kelvin sign.
unfoldable pub lower_unit : ℕ → ℕ
lower_unit c = if leb b'A' c && leb c b'Z' then c + 32 else if c == 0x212A then b'k' else c

unfoldable pub to_lower : Text → Text
unfolding lower_unit
to_lower s = map lower_unit s

-- What `trim` and the class `\s` of a regular expression take for white space.
unfoldable pub is_space : ℕ → Bool
is_space c =
    (leb 9 c && leb c 13)
    || c == 32
    || c == 0xA0
    || c == 0x1680
    || (leb 0x2000 c && leb c 0x200A)
    || c == 0x2028
    || c == 0x2029
    || c == 0x202F
    || c == 0x205F
    || c == 0x3000
    || c == 0xFEFF

unfoldable pub trim_start : Text → Text
unfolding is_space
trim_start [] = []
trim_start (c ∷ s) = if is_space c then trim_start s else c ∷ s

unfoldable pub trim_end : Text → Text
unfolding trim_start
trim_end s = reverse (trim_start (reverse s))

unfoldable pub trim : Text → Text
unfolding trim_start trim_end
trim s = trim_end (trim_start s)

-- `parts.join(sep)` for a separator of one unit
unfoldable pub join : ℕ → List Text → Text
join sep [] = []
join sep (p ∷ []) = p
join sep (p ∷ q ∷ ps) = p ++ sep ∷ join sep (q ∷ ps)

-- The first part, and those after each separator.
split_parts : ℕ → Text → Text × List Text
split_parts sep [] = ([], [])
split_parts sep (c ∷ s) =
    let (p, ps) = split_parts sep s in if c == sep then ([], p ∷ ps) else (c ∷ p, ps)

-- `s.split(sep)` for a separator of one unit
unfoldable pub split : ℕ → Text → List Text
unfolding split_parts
split sep s = let (p, ps) = split_parts sep s in p ∷ ps
