-- ===== src/Pages/Crumbs.antt =====
-- frontend/components/shell/topbar.tsx: `useCrumbs`, where the reader is. `decode` is
-- `decodeURIComponent`, which throws where it gives `none`.
use mathlib.Core.List.{Memᴰ}
use fintech_innova_hack.Prelude.{
  ◌≡◌, refl, sym, ap, ◌∙◌, ◌≢◌, inl, inr, Bool, true, false, Option, none, some, List, [], ◌∷◌,
  ◌++◌, find, drop, length, ◌==◌, if◌then◌else◌, Bool-cases,
}
use fintech_innova_hack.Prelude.Members.{find_sound}
use fintech_innova_hack.Prelude.Text.{Text, codes, text_eq, starts_with, split, join}
use fintech_innova_hack.Prelude.Text.Laws.{text_eq_iff, Lacks, split-join}
use fintech_innova_hack.Format.Labels.{short_id}
use fintech_innova_hack.Format.Labels.Laws.{drop-append}
use fintech_innova_hack.Navigation.{NavItem, nav_items, active_href}
use fintech_innova_hack.Navigation.Laws.{active_href-IsOwner}

pub record Crumb : Type 0 where
  pub label : Text
  pub href : Option Text

-- `entry.href === owner`
is_owner : Option Text → NavItem → Bool
unfolding text_eq
is_owner none item = false
is_owner (some owner) item = text_eq item.href owner

unfoldable pub owner_item : Text → Option NavItem
unfolding is_owner
owner_item pathname = find (is_owner (active_href pathname)) nav_items

-- `.replace(/^\//, "")`
without_slash : Text → Text
without_slash [] = []
without_slash (c ∷ s) = if c == b'/' then s else c ∷ s

-- The first of the parts; `split` gives one at least.
first_part : List Text → Text
first_part [] = []
first_part (p ∷ ps) = p

record_crumbs : NavItem → Option Text → Option (List Crumb)
unfolding short_id
record_crumbs item none = none
record_crumbs item (some id) = some (
    record { label = item.label; href = some item.href }
    ∷ record { label = short_id (some id) 12 4; href = none }
    ∷ [])

item_crumbs : (Text → Option Text) → NavItem → Text → Option (List Crumb)
unfolding record_crumbs first_part split
item_crumbs decode item [] = some (record { label = item.label; href = none } ∷ [])
item_crumbs decode item (c ∷ rest) =
    record_crumbs item (decode (first_part (split b'/' (c ∷ rest))))

outside_crumbs : Text → List Crumb
unfolding starts_with
outside_crumbs pathname =
    if starts_with (codes "/developer") pathname
    then record { label = codes "Developer Lab"; href = none } ∷ []
    else record { label = codes "CredenceAI"; href = none } ∷ []

crumbs_under : (Text → Option Text) → Text → Option NavItem → Option (List Crumb)
unfolding outside_crumbs item_crumbs without_slash
crumbs_under decode pathname none = some (outside_crumbs pathname)
crumbs_under decode pathname (some item) =
    item_crumbs decode item (without_slash (drop (length item.href) pathname))

unfoldable pub crumbs : (Text → Option Text) → Text → Option (List Crumb)
unfolding crumbs_under owner_item
crumbs decode pathname = crumbs_under decode pathname (owner_item pathname)

find_total :
    (p : NavItem → Bool) (x : NavItem) (xs : List NavItem)
    → Memᴰ x xs
    → p x ≡ true
    → (y : NavItem) × (find p xs ≡ some y)
find_total p x [] m e = elim m [ ]
find_total p x (z ∷ xs) (Memᴰ.head h) e = (z, rw (ap p (sym h) ∙ e, find) refl)
find_total p x (z ∷ xs) (Memᴰ.tail m) e = elim (Bool-cases (p z)) [
  | inl t ↦ (z, rw (t, find) refl)
  | inr f ↦ let (y, found) = find_total p x xs m e in (y, rw (f, find) found)
]

owner_true : (item : NavItem) (href : Text) → item.href ≡ href → is_owner (some href) item ≡ true
unfolding is_owner
owner_true item href h = (text_eq_iff item.href href).1 h

owner_sound : (item : NavItem) (href : Text) → is_owner (some href) item ≡ true → item.href ≡ href
unfolding is_owner
owner_sound item href h = (text_eq_iff item.href href).0 h

owner_item-href :
    (pathname href : Text)
    → active_href pathname ≡ some href
    → (item : NavItem) × (owner_item pathname ≡ some item) × (item.href ≡ href)
unfolding owner_item
owner_item-href pathname href e =
    let (item, m, h, _) = (active_href-IsOwner pathname).listed href e in
    let test : is_owner (active_href pathname) item ≡ true = rw e (owner_true item href (sym h)) in
    let (found, f) = find_total (is_owner (active_href pathname)) item nav_items m test in
    let (_, t) = find_sound (is_owner (active_href pathname)) found nav_items f in
    (found, f, owner_sound found href (ap (λ o. is_owner o found) (sym e) ∙ t))

item_crumbs-record :
    (decode : Text → Option Text) (item : NavItem) (id name : Text)
    → id ≢ []
    → Lacks b'/' id
    → decode id ≡ some name
    → item_crumbs decode item id ≡ record_crumbs item (some name)
unfolding item_crumbs first_part join
item_crumbs-record decode item [] name n l e = absurd (n refl)
item_crumbs-record decode item (c ∷ id) name n l e =
    ap (λ ps. record_crumbs item (decode (first_part ps))) (split-join b'/' (c ∷ id) [] (l, tt))
    ∙ ap (record_crumbs item) e

-- On the page of a record, whose path is an item's address with a slash and a text without a slash that
-- can be decoded, the bar shows two crumbs: the item's, which is a link to its address, and the
-- decoded text, shortened.
pub crumbs-record :
    (decode : Text → Option Text) (href id name : Text)
    → active_href (href ++ b'/' ∷ id) ≡ some href
    → id ≢ []
    → Lacks b'/' id
    → decode id ≡ some name
    → (label : Text) × (crumbs decode (href ++ b'/' ∷ id)
        ≡ some (
            record { label = label; href = some href }
            ∷ record { label = short_id (some name) 12 4; href = none }
            ∷ []))
unfolding crumbs record_crumbs without_slash
crumbs-record decode href id name a n l e =
    let (item, found, h) = owner_item-href (href ++ b'/' ∷ id) href a in
    let rest : without_slash (drop (length item.href) (href ++ b'/' ∷ id)) ≡ id =
      ap (λ t. without_slash (drop (length t) (href ++ b'/' ∷ id))) h
      ∙ ap without_slash (drop-append href (b'/' ∷ id)) in
    (
      item.label,
      ap (crumbs_under decode (href ++ b'/' ∷ id)) found
          ∙ ap (item_crumbs decode item) rest
          ∙ item_crumbs-record decode item id name n l e
          ∙ ap
              (λ t. some (
                record { label = item.label; href = some t }
                ∷ record { label = short_id (some name) 12 4; href = none }
                ∷ []))
              h,
    )
