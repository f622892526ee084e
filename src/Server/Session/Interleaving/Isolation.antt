-- ===== src/Server/Session/Interleaving/Isolation.antt =====
-- Whoever shares a bearer shares a client key, and a slot is held no longer than its mint flies.
use mathlib.Core.List.{Memᴰ}
use mathlib.Core.Path.{subst}
use fintech_innova_hack.Prelude.{
  ℕ, suc, ◌<◌, ◌≡◌, ◌≢◌, none, some, List, [], ◌∷◌, ◌++◌, arith, All, sym, Option-cases, inl, inr,
  ◌==◌, if◌then◌else◌, ◌∙◌, ap,
}
use fintech_innova_hack.Prelude.Text.{Text}
use fintech_innova_hack.Prelude.Text.Laws.{text_eq_refl, text_eq_iff}
use fintech_innova_hack.Server.Http.{Result, ok}
use fintech_innova_hack.Server.Session.{get_mint, delete_mint}
use fintech_innova_hack.Server.Session.Interleaving.{
  Waiter, World, start, arrive, free_slot, settle, Step, arriving, settling, opening, failing,
  Reach, begin, next,
}
use fintech_innova_hack.Server.Session.Interleaving.Slots.{
  IsUnique, get_mint-delete_ne, get_mint-delete_self, delete_mint-IsUnique, get_mint-All,
  delete_mint-All, free_slot_held,
}

module _ {ℓ κ} {A : Type ℓ} (P : A → Type κ) where
  All-split : (xs ys : List A) {x : A} → All P (xs ++ x ∷ ys) → P x × All P (xs ++ ys)
  All-split [] ys h = h
  All-split (y ∷ xs) ys (p, h) = let (q, k) = All-split xs ys h in (q, (p, k))

  pub All-Memᴰ : (xs : List A) {x : A} → All P xs → Memᴰ x xs → P x
  All-Memᴰ [] h m = elim m [ ]
  All-Memᴰ (y ∷ xs) (p, h) (Memᴰ.head e) = subst P (sym e) p
  All-Memᴰ (y ∷ xs) (p, h) (Memᴰ.tail m) = All-Memᴰ xs h m

  All-mono : (Q : A → Type κ) → ((x : A) → P x → Q x) → (xs : List A) → All P xs → All Q xs
  All-mono Q f [] h = tt
  All-mono Q f (x ∷ xs) (p, h) = (f x p, All-mono Q f xs h)

-- Mints that fly at one time have different keys.
abbrev pub HaveOwnKeys : List (ℕ × Text) → Type 0
HaveOwnKeys [] = Unit
HaveOwnKeys (f ∷ fs) = All (λ g. g.1 ≢ f.1) fs × HaveOwnKeys fs

HaveOwnKeys-split :
    (xs ys : List (ℕ × Text)) (f : ℕ × Text)
    → HaveOwnKeys (xs ++ f ∷ ys)
    → All (λ g. g.1 ≢ f.1) (xs ++ ys) × HaveOwnKeys (xs ++ ys)
HaveOwnKeys-split [] ys f h = h
HaveOwnKeys-split (x ∷ xs) ys f (a, h) =
    let (b, k) = HaveOwnKeys-split xs ys f h in
    let (n, a') = All-split (λ g. g.1 ≢ x.1) xs ys a in ((λ e. n (sym e), b), (a', k))

-- `owner i` is the key of the client that started the mint `i`.
pub record IsSound (w : World) : Type 0 where
  pub owner : ℕ → Text
  pub unique : IsUnique w.slots
  pub slots_owned : All (λ s. (owner s.1 ≡ s.0) × (s.1 < w.next)) w.slots
  pub flying_slots : All (λ f. get_mint f.1 w.slots ≡ some f.0) w.flying
  pub own_keys : HaveOwnKeys w.flying
  pub waiting_owned : All (λ x. (owner x.mint ≡ x.key) × (x.mint < w.next)) w.waiting
  pub opened_owned : All (λ o. (owner o.0.mint ≡ o.0.key) × (o.0.mint < w.next)) w.opened
  pub opened_ended : All (λ o. Memᴰ (o.0.mint, ok o.1) w.ended) w.opened

start-IsSound : IsSound start
start-IsSound = record {
  owner = λ _. [];
  unique = tt;
  slots_owned = tt;
  flying_slots = tt;
  own_keys = tt;
  waiting_owned = tt;
  opened_owned = tt;
  opened_ended = tt;
}

joined-IsSound :
    (v : ℕ) (k : Text) (w : World) (i : ℕ)
    → get_mint k w.slots ≡ some i
    → IsSound w
    → IsSound (arrive v k w)
unfolding arrive
joined-IsSound v k w i e h = rw e (record {
  owner = h.owner;
  unique = h.unique;
  slots_owned = h.slots_owned;
  flying_slots = h.flying_slots;
  own_keys = h.own_keys;
  waiting_owned = (
    get_mint-All (λ s. (h.owner s.1 ≡ s.0) × (s.1 < w.next)) k w.slots i h.slots_owned e,
    h.waiting_owned,
  );
  opened_owned = h.opened_owned;
  opened_ended = h.opened_ended;
})

-- The owners once the mint `n` is started under the key `k`.
own : (ℕ → Text) → ℕ → Text → ℕ → Text
own owner n k i = if i == n then k else owner i

own_self : (owner : ℕ → Text) (n : ℕ) (k : Text) → own owner n k n ≡ k
unfolding own
own_self owner n k = ground arith

own_below :
    (owner : ℕ → Text) (n : ℕ) (k j : Text) (i : ℕ)
    → (owner i ≡ j) × (i < n)
    → (own owner n k i ≡ j) × (i < suc n)
unfolding own
own_below owner n k j i h = ground arith

other_key :
    (k : Text) (slots : List (Text × ℕ))
    → get_mint k slots ≡ none
    → (f : ℕ × Text) → get_mint f.1 slots ≡ some f.0
    → f.1 ≢ k
other_key k slots e f p q = cc (ap (λ (j : Text). get_mint j slots) q)

other_slot :
    (k : Text) (n : ℕ) (slots : List (Text × ℕ))
    → get_mint k slots ≡ none
    → (f : ℕ × Text) → get_mint f.1 slots ≡ some f.0
    → get_mint f.1 ((k, n) ∷ slots) ≡ some f.0
unfolding get_mint
other_slot k n slots e f p = ground (arith, text_eq_iff k f.1, other_key k slots e f p)

started-IsSound :
    (v : ℕ) (k : Text) (w : World) → get_mint k w.slots ≡ none → IsSound w → IsSound (arrive v k w)
unfolding arrive get_mint
started-IsSound v k w e h =
    let owner' = own h.owner w.next k in
    let here = own_self h.owner w.next k in
    rw e (record {
      owner = owner';
      unique = (e, h.unique);
      slots_owned = (
        (here, omega arith),
        All-mono _ (λ s. (owner' s.1 ≡ s.0) × (s.1 < suc w.next))
            (λ s. own_below h.owner w.next k s.0 s.1) w.slots h.slots_owned,
      );
      flying_slots = (
        ground (arith, text_eq_refl k),
        All-mono _ (λ f. get_mint f.1 ((k, w.next) ∷ w.slots) ≡ some f.0)
            (other_slot k w.next w.slots e) w.flying h.flying_slots,
      );
      own_keys =
          (All-mono _ (λ f. f.1 ≢ k) (other_key k w.slots e) w.flying h.flying_slots, h.own_keys);
      waiting_owned = (
        (here, omega arith),
        All-mono _ (λ x. (owner' x.mint ≡ x.key) × (x.mint < suc w.next))
            (λ x. own_below h.owner w.next k x.key x.mint) w.waiting h.waiting_owned,
      );
      opened_owned =
          All-mono _ (λ o. (owner' o.0.mint ≡ o.0.key) × (o.0.mint < suc w.next))
            (λ o. own_below h.owner w.next k o.0.key o.0.mint) w.opened h.opened_owned;
      opened_ended = h.opened_ended;
    })

arrive-IsSound : (v : ℕ) (k : Text) (w : World) → IsSound w → IsSound (arrive v k w)
arrive-IsSound v k w h = elim (Option-cases (get_mint k w.slots)) [
  | inl e ↦ started-IsSound v k w e h
  | inr (i, e) ↦ joined-IsSound v k w i e h
]

module _ (w : World) (i : ℕ) (k : Text) (r : Result Text) (before after : List (ℕ × Text))
    (e : w.flying ≡ before ++ (i, k) ∷ after) (h : IsSound w) where
  -- The mint that is answered holds its slot.
  held : get_mint k w.slots ≡ some i
  held =
      (All-split (λ f. get_mint f.1 w.slots ≡ some f.0) before after
        (subst (All (λ f. get_mint f.1 w.slots ≡ some f.0)) e h.flying_slots)).0

  freed : free_slot k i w.slots ≡ delete_mint k w.slots
  freed = free_slot_held k i w.slots held

  left_own : All (λ g. g.1 ≢ k) (before ++ after) × HaveOwnKeys (before ++ after)
  left_own = HaveOwnKeys-split before after (i, k) (subst HaveOwnKeys e h.own_keys)

  left_slots : All (λ f. get_mint f.1 w.slots ≡ some f.0) (before ++ after)
  left_slots =
      (All-split (λ f. get_mint f.1 w.slots ≡ some f.0) before after
        (subst (All (λ f. get_mint f.1 w.slots ≡ some f.0)) e h.flying_slots)).1

  -- Once a mint is answered, well or badly, its client's slot is empty.
  pub settled_slot : get_mint k (settle i k r (before ++ after) w).slots ≡ none
  unfolding settle
  settled_slot = rw freed (get_mint-delete_self k w.slots h.unique)

  still :
      (fs : List (ℕ × Text))
      → All (λ g. g.1 ≢ k) fs
      → All (λ f. get_mint f.1 w.slots ≡ some f.0) fs
      → All (λ f. get_mint f.1 (delete_mint k w.slots) ≡ some f.0) fs
  still [] a b = tt
  still (f ∷ fs) (n, a) (p, b) = (get_mint-delete_ne f.1 k w.slots n ∙ p, still fs a b)

  settle-IsSound : IsSound (settle i k r (before ++ after) w)
  unfolding settle
  settle-IsSound = rw freed (record {
    owner = h.owner;
    unique = delete_mint-IsUnique k w.slots h.unique;
    slots_owned =
        delete_mint-All (λ s. (h.owner s.1 ≡ s.0) × (s.1 < w.next)) k w.slots h.slots_owned;
    flying_slots = still (before ++ after) left_own.0 left_slots;
    own_keys = left_own.1;
    waiting_owned = h.waiting_owned;
    opened_owned = h.opened_owned;
    opened_ended =
        All-mono _ (λ o. Memᴰ (o.0.mint, ok o.1) ((i, r) ∷ w.ended)) (λ o m. Memᴰ.tail m) w.opened
          h.opened_ended;
  })

Step-IsSound : {w w' : World} → Step w w' → IsSound w → IsSound w'
Step-IsSound {w} (arriving v k) h = arrive-IsSound v k w h
Step-IsSound {w} (settling i k r before after e) h = settle-IsSound w i k r before after e h
Step-IsSound {w} (opening x t before after e m) h =
    let P = λ (y : Waiter). (h.owner y.mint ≡ y.key) × (y.mint < w.next) in
    let (p, rest) = All-split P before after (subst (All P) e h.waiting_owned) in
    record {
      owner = h.owner;
      unique = h.unique;
      slots_owned = h.slots_owned;
      flying_slots = h.flying_slots;
      own_keys = h.own_keys;
      waiting_owned = rest;
      opened_owned = (p, h.opened_owned);
      opened_ended = (m, h.opened_ended);
    }
Step-IsSound {w} (failing x before after e thrown m) h =
    let P = λ (y : Waiter). (h.owner y.mint ≡ y.key) × (y.mint < w.next) in
    record {
      owner = h.owner;
      unique = h.unique;
      slots_owned = h.slots_owned;
      flying_slots = h.flying_slots;
      own_keys = h.own_keys;
      waiting_owned = (All-split P before after (subst (All P) e h.waiting_owned)).1;
      opened_owned = h.opened_owned;
      opened_ended = h.opened_ended;
    }

pub Reach-IsSound : {w : World} → Reach w → IsSound w
Reach-IsSound begin = start-IsSound
Reach-IsSound (next r s) = Step-IsSound s (Reach-IsSound r)
