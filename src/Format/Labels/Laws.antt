-- ===== src/Format/Labels/Laws.antt =====
-- What a shortened identifier keeps and what it loses, and what a humanised code is free of.
use mathlib.Core.List.{append_assoc, reverse, reverse-cons}
use fintech_innova_hack.Prelude.{
  ℕ, ◌+◌, ◌-◌, ◌≤◌, ◌<◌, ◌≡◌, refl, ◌≢◌, Bool, false, Option, none, some, [], ◌∷◌, ◌++◌, arith,
  length, take, drop, length-append, All, Bool-cases, inl, inr, ==_iff, ◌==◌, ◌||◌, ◌∙◌, sym,
  All-append, leb,
}
use fintech_innova_hack.Prelude.Text.{Text, to_lower, trim, trim_start, trim_end, is_space}
use fintech_innova_hack.Format.Labels.{
  ellipsis, slice_end, shorten, short_id, is_joiner, spaced, capitalise, humanise,
}

-- A text, nonempty, that is short enough is shown whole.
pub short_id_whole :
    (s : Text) (head tail : ℕ)
    → s ≢ []
    → length s ≤ head + tail + 1
    → short_id (some s) head tail ≡ s
unfolding short_id
short_id_whole [] head tail n h = absurd (n refl)
short_id_whole (c ∷ s) head tail n h = ground arith

take-append : (xs ys : Text) → take (length xs) (xs ++ ys) ≡ xs
take-append [] ys = refl
take-append (x ∷ xs) ys = rw (take-append xs ys)

pub drop-append : (xs ys : Text) → drop (length xs) (xs ++ ys) ≡ ys
drop-append [] ys = refl
drop-append (x ∷ xs) ys = drop-append xs ys

slice_end-append : (xs ys : Text) → 0 < length ys → slice_end (length ys) (xs ++ ys) ≡ ys
unfolding slice_end
slice_end-append xs ys p =
    let front : length (xs ++ ys) - length ys ≡ length xs = omega (arith, length-append xs ys) in
    elim (Bool-cases (length ys == 0)) [
      | inl z ↦ absurd (omega (arith, (==_iff (length ys) 0).0 z))
      | inr z ↦ rw (z, front) (drop-append xs ys)
    ]

shorten-middle :
    (most : ℕ) (h m t : Text)
    → 0 < length t
    → most < length h + length m + length t
    → shorten most (length h) (length t) (h ++ (m ++ t)) ≡ h ++ ellipsis ∷ t
unfolding shorten
shorten-middle most h m t p long =
    let size : length (h ++ (m ++ t)) ≡ length h + length m + length t =
      omega (arith, length-append h (m ++ t), length-append m t) in
    let over : leb (length (h ++ (m ++ t))) most ≡ false = rw size (ground arith) in
    let back : slice_end (length t) (h ++ (m ++ t)) ≡ t =
      rw (← append_assoc h m t) (slice_end-append (h ++ m) t p) in
    rw (over, take-append h (m ++ t), back)

-- An identifier too long to show keeps its two ends, with an ellipsis between them for the middle.
pub short_id-middle :
    (h m t : Text)
    → 0 < length t
    → 1 < length m
    → short_id (some (h ++ (m ++ t))) (length h) (length t) ≡ h ++ ellipsis ∷ t
unfolding short_id
short_id-middle [] [] t p long = absurd (omega arith)
short_id-middle [] (c ∷ m) t p long = shorten-middle (0 + length t + 1) [] (c ∷ m) t p (omega arith)
short_id-middle (c ∷ h) m t p long =
    shorten-middle (length (c ∷ h) + length t + 1) (c ∷ h) m t p (omega arith)

-- Two identifiers with the same ends are shown alike, whatever differs in their middles.
pub short_id_collides :
    (h m m' t : Text)
    → 0 < length t
    → 1 < length m
    → 1 < length m'
    → short_id (some (h ++ (m ++ t))) (length h) (length t)
      ≡ short_id (some (h ++ (m' ++ t))) (length h) (length t)
short_id_collides h m m' t p k k' = short_id-middle h m t p k ∙ sym (short_id-middle h m' t p k')

-- A unit that a humanised code may hold.
abbrev pub IsWordUnit : ℕ → Type 0
IsWordUnit c = (c ≢ b'_') × (c ≢ b'-')

spaced-IsWordUnit : (inside : Bool) (s : Text) → All IsWordUnit (spaced inside s)
unfolding spaced is_joiner
spaced-IsWordUnit inside [] = tt
spaced-IsWordUnit inside (c ∷ s) = ground (arith, spaced-IsWordUnit (c == b'_' || c == b'-') s)

lower-IsWordUnit : (s : Text) → All IsWordUnit s → All IsWordUnit (to_lower s)
unfolding to_lower
lower-IsWordUnit [] h = tt
lower-IsWordUnit (c ∷ s) (p, h) = (ground arith, lower-IsWordUnit s h)

trim_start-All : (P : ℕ → Type 0) (s : Text) → All P s → All P (trim_start s)
unfolding trim_start
trim_start-All P [] h = tt
trim_start-All P (c ∷ s) (p, h) = elim (Bool-cases (is_space c)) [
  | inl e ↦ rw e (trim_start-All P s h)
  | inr e ↦ rw e (p, h)
]

reverse-All : (P : ℕ → Type 0) (s : Text) → All P s → All P (reverse s)
reverse-All P [] h = tt
reverse-All P (c ∷ s) (p, h) =
    rw (reverse-cons c s) (All-append P (reverse s) (c ∷ []) (reverse-All P s h) (p, tt))

trim-All : (P : ℕ → Type 0) (s : Text) → All P s → All P (trim s)
unfolding trim trim_end
trim-All P s h = reverse-All P _ (trim_start-All P _ (reverse-All P _ (trim_start-All P s h)))

capitalise-IsWordUnit : (s : Text) → All IsWordUnit s → All IsWordUnit (capitalise s)
unfolding capitalise
capitalise-IsWordUnit [] h = tt
capitalise-IsWordUnit (c ∷ s) (p, h) = (ground arith, h)

-- A humanised code holds no underscore and no hyphen.
pub humanise-IsWordUnit : (code : Option Text) → All IsWordUnit (humanise code)
unfolding humanise
humanise-IsWordUnit none = omega arith
humanise-IsWordUnit (some []) = omega arith
humanise-IsWordUnit (some (c ∷ s)) =
    capitalise-IsWordUnit (trim (to_lower (spaced false (c ∷ s)))) (
      trim-All IsWordUnit (to_lower (spaced false (c ∷ s)))
        (lower-IsWordUnit (spaced false (c ∷ s)) (spaced-IsWordUnit false (c ∷ s))))
