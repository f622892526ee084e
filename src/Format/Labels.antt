-- ===== src/Format/Labels.antt =====
-- The identifiers and codes of frontend/lib/format.ts. An absent text is `none`.
pub mod Laws
mod Examples
use fintech_innova_hack.Prelude.{
  ℕ, ◌+◌, ◌-◌, Bool, true, false, ◌&&◌, ◌||◌, Option, none, some, List, [], ◌∷◌, ◌++◌, leb, ◌==◌,
  if◌then◌else◌, length, take, drop,
}
use fintech_innova_hack.Prelude.Text.{Text, codes, to_lower, trim}

abbrev pub no_value : Text
no_value = codes "—"

-- `s.slice(-n)`; `slice(-0)` is the whole text.
unfoldable pub slice_end : ℕ → Text → Text
slice_end n s = if n == 0 then s else drop (length s - n) s

abbrev ellipsis : ℕ
ellipsis = 0x2026

shorten : ℕ → ℕ → ℕ → Text → Text
unfolding slice_end
shorten most head tail s =
    if leb (length s) most then s else take head s ++ ellipsis ∷ slice_end tail s

-- The defaults of `head` and `tail` are 10 and 4.
unfoldable pub short_id : Option Text → ℕ → ℕ → Text
unfolding shorten
short_id none head tail = no_value
short_id (some []) head tail = no_value
short_id (some (c ∷ s)) head tail = shorten (head + tail + 1) head tail (c ∷ s)

unfoldable pub short_hash : Option Text → Text
unfolding shorten
short_hash none = no_value
short_hash (some []) = no_value
short_hash (some (c ∷ s)) = shorten 16 8 6 (c ∷ s)

is_joiner : ℕ → Bool
is_joiner c = c == b'_' || c == b'-'

-- `code.replace(/[_-]+/g, " ")`; `inside` says that a run of joiners has been replaced already.
spaced : Bool → Text → Text
spaced inside [] = []
spaced inside (c ∷ s) =
    let rest = spaced (is_joiner c) s in
    if is_joiner c then (if inside then rest else b' ' ∷ rest) else c ∷ rest

upper_unit : ℕ → ℕ
upper_unit c = if leb b'a' c && leb c b'z' then c - 32 else c

capitalise : Text → Text
unfolding upper_unit
capitalise [] = []
capitalise (c ∷ s) = upper_unit c ∷ s

-- Backend codes are ASCII: other letters keep their case here.
unfoldable pub humanise : Option Text → Text
unfolding is_joiner spaced capitalise to_lower trim
humanise none = no_value
humanise (some []) = no_value
humanise (some (c ∷ s)) = capitalise (trim (to_lower (spaced false (c ∷ s))))

unfoldable pub pluralise : ℕ → Text → Option Text → Text
pluralise n one none = if n == 1 then one else one ++ codes "s"
pluralise n one (some many) = if n == 1 then one else many
