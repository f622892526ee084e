-- ===== src/Server/Session/Interleaving/Slots.antt =====
-- The map of mints in flight: no key twice, and what deleting a key leaves.
use fintech_innova_hack.Prelude.{
  ℕ, ◌≡◌, refl, ◌≢◌, none, some, List, [], ◌∷◌, arith, All, inl, inr, ==_iff, Bool-cases,
}
use mathlib.Core.Path.{subst}
use fintech_innova_hack.Prelude.Text.{Text, text_eq}
use fintech_innova_hack.Prelude.Text.Laws.{text_eq_iff}
use fintech_innova_hack.Server.Session.{get_mint, delete_mint}
use fintech_innova_hack.Server.Session.Interleaving.{free_slot}

-- No key stands twice.
abbrev pub IsUnique : List (Text × ℕ) → Type 0
IsUnique [] = Unit
IsUnique ((k, i) ∷ s) = (get_mint k s ≡ none) × IsUnique s

pub get_mint-delete_ne :
    (j k : Text) (s : List (Text × ℕ)) → j ≢ k → get_mint j (delete_mint k s) ≡ get_mint j s
unfolding get_mint delete_mint
get_mint-delete_ne j k [] n = refl
get_mint-delete_ne j k ((l, i) ∷ s) n =
    ground (arith, text_eq_iff l j, text_eq_iff l k, get_mint-delete_ne j k s n)

pub get_mint-delete_self :
    (k : Text) (s : List (Text × ℕ)) → IsUnique s → get_mint k (delete_mint k s) ≡ none
unfolding get_mint delete_mint
get_mint-delete_self k [] u = refl
get_mint-delete_self k ((l, i) ∷ s) (n, u) =
    ground (arith, text_eq_iff l k, get_mint-delete_self k s u)

pub delete_mint-IsUnique :
    (k : Text) (s : List (Text × ℕ)) → IsUnique s → IsUnique (delete_mint k s)
unfolding delete_mint
delete_mint-IsUnique k [] u = tt
delete_mint-IsUnique k ((l, i) ∷ s) (n, u) =
    ground (arith, text_eq_iff l k, delete_mint-IsUnique k s u, get_mint-delete_ne l k s)

-- What holds of every entry holds of the entry that is found.
pub get_mint-All :
    (P : Text × ℕ → Type 0) (k : Text) (s : List (Text × ℕ)) (i : ℕ)
    → All P s
    → get_mint k s ≡ some i
    → P (k, i)
unfolding get_mint
get_mint-All P k [] i h e = cc
get_mint-All P k ((l, j) ∷ s) i (p, h) e = elim (Bool-cases (text_eq l k)) [
  | inl b ↦
      let same : l ≡ k = (text_eq_iff l k).0 b in
      let found : j ≡ i = ground arith in subst (λ (x : Text × ℕ). P x) (ground arith) p
  | inr b ↦ get_mint-All P k s i h (ground arith)
]

pub delete_mint-All :
    (P : Text × ℕ → Type 0) (k : Text) (s : List (Text × ℕ)) → All P s → All P (delete_mint k s)
unfolding delete_mint
delete_mint-All P k [] h = tt
delete_mint-All P k ((l, j) ∷ s) (p, h) = ground (arith, delete_mint-All P k s h)

module _ (k : Text) (i : ℕ) (s : List (Text × ℕ)) (held : get_mint k s ≡ some i) where
  pub free_slot_held : free_slot k i s ≡ delete_mint k s
  unfolding free_slot
  free_slot_held = ground (arith, ==_iff i i)
