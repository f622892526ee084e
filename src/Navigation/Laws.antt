-- ===== src/Navigation/Laws.antt =====
-- Which item `activeHref` finds.
use mathlib.Core.List.{Memᴰ, append_assoc}
use mathlib.Core.Path.{subst}
use fintech_innova_hack.Prelude.{
  ℕ, ◌≤◌, ◌≡◌, refl, ◌⊎◌, inl, inr, true, ◌&&◌, Option, none, some, List, [], ◌∷◌, ◌++◌, arith, ltb,
  length, All, Bool-cases, and-eq_true, ltb→lt, ltb_false→le, if◌then◌else◌, ==_iff, ap, sym, ◌∙◌,
}
use fintech_innova_hack.Prelude.Text.{Text, text_eq, starts_with}
use fintech_innova_hack.Prelude.Text.Laws.{text_eq_iff}
use fintech_innova_hack.Navigation.{
  NavItem, nav_items, owns, is_better, match_of, over, active_in, active_href,
}

-- The path is the item's, or one below it.
abbrev pub IsUnder : Text → Text → Type 0
IsUnder pathname href = (pathname ≡ href) ⊎ ((rest : Text) × (pathname ≡ href ++ b'/' ∷ rest))

starts_with_sound : (p s : Text) → starts_with p s ≡ true → (rest : Text) × (s ≡ p ++ rest)
unfolding starts_with
starts_with_sound [] s h = (s, refl)
starts_with_sound (c ∷ p) [] h = cc
starts_with_sound (c ∷ p) (d ∷ s) h =
    let (rest, e) = starts_with_sound p s (ground arith) in (rest, ground arith)

owns_sound : (pathname href : Text) → owns pathname href ≡ true → IsUnder pathname href
unfolding owns
owns_sound pathname href h = elim (Bool-cases (text_eq pathname href)) [
  | inl e ↦ inl ((text_eq_iff pathname href).0 e)
  | inr e ↦
      let (rest, f) = starts_with_sound (href ++ b'/' ∷ []) pathname (ground arith) in
      inr (rest, rw (f, append_assoc href (b'/' ∷ []) rest) refl)
]

starts_with-append : (p rest : Text) → starts_with p (p ++ rest) ≡ true
unfolding starts_with
starts_with-append [] rest = refl
starts_with-append (c ∷ p) rest = ground (arith, starts_with-append p rest, ==_iff c c)

owns_complete : (pathname href : Text) → IsUnder pathname href → owns pathname href ≡ true
unfolding owns
owns_complete pathname href (inl e) = ground (arith, text_eq_iff pathname href)
owns_complete pathname href (inr (rest, e)) =
    let prefix : starts_with (href ++ b'/' ∷ []) pathname ≡ true =
      rw (e, ← append_assoc href (b'/' ∷ []) rest) (starts_with-append (href ++ b'/' ∷ []) rest) in
    ground arith

-- No item has more candidates than its own address.
abbrev HasNoMatch : NavItem → Type 0
HasNoMatch item = item.match ≡ none

-- One item, once its candidates are tried.
step : Text → Text → Option Text → Option Text
step pathname href best = if owns pathname href && is_better best href then some href else best

active_in-cons :
    (pathname : Text) (item : NavItem) (items : List NavItem) (best : Option Text)
    → HasNoMatch item
    → active_in pathname (item ∷ items) best
      ≡ active_in pathname items (step pathname item.href best)
unfolding active_in over match_of step
active_in-cons pathname item items best n = rw n refl

-- An address of at least this length was found.
abbrev AtLeast : ℕ → Option Text → Type 0
AtLeast n o = (h : Text) × (o ≡ some h) × (n ≤ length h)

step-AtLeast :
    (pathname href : Text) (n : ℕ) (best : Option Text)
    → AtLeast n best
    → AtLeast n (step pathname href best)
unfolding step is_better
step-AtLeast pathname href n none (h, e, k) = cc
step-AtLeast pathname href n (some b) (h, e, k) =
    elim (Bool-cases (owns pathname href && ltb (length b) (length href))) [
      | inl better ↦
          let longer =
            ltb→lt (length b) (length href)
              (and-eq_true (owns pathname href) (ltb (length b) (length href)) better).1 in
          let same : b ≡ h = cc in rw better (href, refl, omega (arith, ap length same))
      | inr worse ↦ rw worse (h, e, k)
    ]

step-owned :
    (pathname href : Text) (best : Option Text)
    → owns pathname href ≡ true
    → AtLeast (length href) (step pathname href best)
unfolding step is_better
step-owned pathname href none o = rw o (href, refl, omega arith)
step-owned pathname href (some b) o = elim (Bool-cases (ltb (length b) (length href))) [
  | inl better ↦ rw (o, better) (href, refl, omega arith)
  | inr worse ↦ rw (o, worse) (b, refl, ltb_false→le (length b) (length href) worse)
]

active_in-AtLeast :
    (pathname : Text) (items : List NavItem) (n : ℕ) (best : Option Text)
    → All HasNoMatch items
    → AtLeast n best
    → AtLeast n (active_in pathname items best)
unfolding active_in
active_in-AtLeast pathname [] n best a h = h
active_in-AtLeast pathname (item ∷ items) n best (m, a) h =
    rw (active_in-cons pathname item items best m) (
      active_in-AtLeast pathname items n (step pathname item.href best) a
        (step-AtLeast pathname item.href n best h))

active_in-longest :
    (pathname : Text) (items : List NavItem) (item : NavItem) (best : Option Text)
    → All HasNoMatch items
    → Memᴰ item items
    → owns pathname item.href ≡ true
    → AtLeast (length item.href) (active_in pathname items best)
active_in-longest pathname [] item best a m o = elim m [ ]
active_in-longest pathname (i ∷ items) item best (n, a) (Memᴰ.head e) o =
    rw (active_in-cons pathname i items best n) (
      active_in-AtLeast pathname items (length item.href) (step pathname i.href best) a (
        subst (λ j. AtLeast (length j.href) (step pathname i.href best)) (sym e)
          (step-owned pathname i.href best (subst (λ j. owns pathname j.href ≡ true) e o))))
active_in-longest pathname (i ∷ items) item best (n, a) (Memᴰ.tail m) o =
    rw (active_in-cons pathname i items best n)
      (active_in-longest pathname items item (step pathname i.href best) a m o)

step_sound :
    (pathname href h : Text) (best : Option Text)
    → step pathname href best ≡ some h
    → (best ≡ some h) ⊎ ((h ≡ href) × (owns pathname href ≡ true))
unfolding step
step_sound pathname href h best e = elim (Bool-cases (owns pathname href && is_better best href)) [
  | inl b ↦ inr (ground arith, (and-eq_true (owns pathname href) (is_better best href) b).0)
  | inr b ↦ inl (ground arith)
]

active_in_sound :
    (pathname : Text) (items : List NavItem) (best : Option Text) (h : Text)
    → All HasNoMatch items
    → active_in pathname items best ≡ some h
    → (best ≡ some h)
      ⊎ ((item : NavItem) × Memᴰ item items × (h ≡ item.href) × (owns pathname h ≡ true))
unfolding active_in
active_in_sound pathname [] best h a e = inl e
active_in_sound pathname (i ∷ items) best h (n, a) e =
    elim (active_in_sound pathname items (step pathname i.href best) h a
      (sym (active_in-cons pathname i items best n) ∙ e)) [
        | inr (item, m, f, o) ↦ inr (item, Memᴰ.tail m, f, o)
        | inl f ↦ elim (step_sound pathname i.href h best f) [
          | inl g ↦ inl g
          | inr (g, o) ↦ inr (i, Memᴰ.head refl, g, rw g o)
        ]
      ]

nav_items-HasNoMatch : All HasNoMatch nav_items
unfolding nav_items
nav_items-HasNoMatch = (
  refl,
  (
    refl,
    (refl, (refl, (refl, (refl, (refl, (refl, (refl, (refl, (refl, (refl, (refl, tt))))))))))),
  ),
)

-- What `activeHref` finds for a path: with an address, that of an item that the path is under, and
-- no item that the path is under has a longer one; with nothing, no item at all.
pub record IsOwner (pathname : Text) (found : Option Text) : Type 0 where
  pub listed :
      (h : Text)
      → found ≡ some h
      → (item : NavItem) × Memᴰ item nav_items × (h ≡ item.href) × IsUnder pathname h
  pub longest :
      (item : NavItem)
      → Memᴰ item nav_items
      → IsUnder pathname item.href
      → (h : Text) × (found ≡ some h) × (length item.href ≤ length h)

-- For every path, `activeHref` finds the item that owns it: an address that it gives is that of an
-- item that the path is, or is below; and if the path is, or is below, any item's address, it gives
-- one, and none of those is longer.
pub active_href-IsOwner : (pathname : Text) → IsOwner pathname (active_href pathname)
unfolding active_href
active_href-IsOwner pathname = record {
  listed = λ h e. elim (active_in_sound pathname nav_items none h nav_items-HasNoMatch e) [
    | inl f ↦ cc
    | inr (item, m, f, o) ↦ (item, m, f, owns_sound pathname h o)
  ];
  longest = λ item m u.
      active_in-longest pathname nav_items item none nav_items-HasNoMatch m
        (owns_complete pathname item.href u);
}
