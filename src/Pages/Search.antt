-- ===== src/Pages/Search.antt =====
-- The free-text search that the list pages share: the trimmed, lowered needle is looked for in the
-- lowered fields of a row. `lower` is `toLowerCase`, whose tables are those of Unicode.
use mathlib.Core.List.{Memᴰ}
use fintech_innova_hack.Prelude.{
  ◌≡◌, refl, sym, ap, ◌∙◌, ◌↔◌, ◌⊎◌, inl, inr, Bool, true, false, ◌||◌, List, [], ◌∷◌, ◌++◌, any,
  arith, ◌==◌, ==_iff, and-eq_true,
}
use fintech_innova_hack.Prelude.Text.{Text, text_eq, starts_with, includes, trim}
use fintech_innova_hack.Prelude.Text.Laws.{text_eq_iff}

-- What is looked for, from what was typed.
unfoldable pub needle_of : (Text → Text) → Text → Text
unfolding trim
needle_of lower search = lower (trim search)

-- `needle === "" || a.toLowerCase().includes(needle) || …`
unfoldable pub is_found : (Text → Text) → Text → List Text → Bool
unfolding text_eq includes
is_found lower needle fields = text_eq needle [] || any (λ s. includes needle (lower s)) fields

-- The part stands somewhere in the text.
abbrev pub Contains : Text → Text → Type 0
Contains part s = (u : Text) × (v : Text) × (s ≡ u ++ (part ++ v))

-- Nothing is looked for, or it stands in one of the fields.
abbrev pub Finds : (Text → Text) → Text → List Text → Type 0
Finds lower needle fields = (needle ≡ []) ⊎ ((s : Text) × Memᴰ s fields × Contains needle (lower s))

pub or-eq_true : (a b : Bool) → (a || b) ≡ true → (a ≡ true) ⊎ (b ≡ true)
or-eq_true true b h = inl refl
or-eq_true false b h = inr h

pub or_left : (a b : Bool) → a ≡ true → (a || b) ≡ true
or_left a b h = ground arith

pub or_right : (a b : Bool) → b ≡ true → (a || b) ≡ true
or_right a b h = ground arith

starts_with_sound : (part s : Text) → starts_with part s ≡ true → (v : Text) × (s ≡ part ++ v)
unfolding starts_with
starts_with_sound [] s h = (s, refl)
starts_with_sound (p ∷ ps) [] h = absurd (cc h)
starts_with_sound (p ∷ ps) (c ∷ s) h =
    let (same, rest) = and-eq_true (p == c) (starts_with ps s) h in
    let (v, e) = starts_with_sound ps s rest in
    (v, ap (λ t. c ∷ t) e ∙ ap (λ x. x ∷ (ps ++ v)) (sym ((==_iff p c).0 same)))

starts_with_complete : (part v : Text) → starts_with part (part ++ v) ≡ true
unfolding starts_with
starts_with_complete [] v = refl
starts_with_complete (p ∷ ps) v = ground (arith, starts_with_complete ps v)

includes_sound : (part s : Text) → includes part s ≡ true → Contains part s
unfolding includes
includes_sound part [] h = let (v, e) = starts_with_sound part [] h in ([], v, e)
includes_sound part (c ∷ s) h = elim (or-eq_true (starts_with part (c ∷ s)) (includes part s) h) [
  | inl here ↦ let (v, e) = starts_with_sound part (c ∷ s) here in ([], v, e)
  | inr later ↦ let (u, v, e) = includes_sound part s later in (c ∷ u, v, ap (λ t. c ∷ t) e)
]

includes_complete : (part u v : Text) → includes part (u ++ (part ++ v)) ≡ true
unfolding includes
includes_complete [] [] [] = refl
includes_complete [] [] (c ∷ v) = refl
includes_complete (p ∷ ps) [] v =
    or_left _ (includes (p ∷ ps) (ps ++ v)) (starts_with_complete (p ∷ ps) v)
includes_complete part (c ∷ u) v =
    or_right (starts_with part (c ∷ u ++ (part ++ v))) _ (includes_complete part u v)

-- The search is `includes` in the sense of the texts.
pub includes_iff : (part s : Text) → (includes part s ≡ true) ↔ Contains part s
includes_iff part s = (includes_sound part s, λ (u, v, e). rw e (includes_complete part u v))

module _ (lower : Text → Text) (needle : Text) where
  any-Finds :
      (fields : List Text)
      → any (λ s. includes needle (lower s)) fields ≡ true
      → (s : Text) × Memᴰ s fields × Contains needle (lower s)
  any-Finds [] h = absurd (cc h)
  any-Finds (s ∷ fields) h = elim (or-eq_true (includes needle (lower s)) _ h) [
    | inl here ↦ (s, Memᴰ.head refl, includes_sound needle (lower s) here)
    | inr later ↦ let (t, m, c) = any-Finds fields later in (t, Memᴰ.tail m, c)
  ]

  Finds-any :
      (fields : List Text) (s : Text)
      → Memᴰ s fields
      → includes needle (lower s) ≡ true
      → any (λ t. includes needle (lower t)) fields ≡ true
  Finds-any [] s m h = elim m [ ]
  Finds-any (t ∷ fields) s (Memᴰ.head e) h =
      or_left (includes needle (lower t)) _ (ap (λ x. includes needle (lower x)) (sym e) ∙ h)
  Finds-any (t ∷ fields) s (Memᴰ.tail m) h =
      or_right (includes needle (lower t)) _ (Finds-any fields s m h)

  -- A row is found exactly if nothing is looked for, or the needle stands in a lowered field.
  pub is_found-Finds :
      (fields : List Text) → (is_found lower needle fields ≡ true) ↔ Finds lower needle fields
  unfolding is_found
  is_found-Finds fields = (
    λ h. elim (or-eq_true (text_eq needle []) _ h) [
      | inl e ↦ inl ((text_eq_iff needle []).0 e)
      | inr f ↦ inr (any-Finds fields f)
    ],
    λ f. elim f [
      | inl e ↦ or_left (text_eq needle []) _ ((text_eq_iff needle []).1 e)
      | inr (s, m, c) ↦
          or_right (text_eq needle []) _
            (Finds-any fields s m ((includes_iff needle (lower s)).1 c))
    ],
  )
