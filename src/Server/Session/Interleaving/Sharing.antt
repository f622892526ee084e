-- ===== src/Server/Session/Interleaving/Sharing.antt =====
-- Who can come to share a workspace, and when a slot is free again.
use mathlib.Core.List.{Memᴰ}
use fintech_innova_hack.Prelude.{ℕ, ◌<◌, ◌≡◌, refl, some, List, ◌∷◌, ◌++◌, arith, sym, ◌∙◌, ap}
use fintech_innova_hack.Prelude.Text.{Text}
use fintech_innova_hack.Server.Http.{Result, ok}
use fintech_innova_hack.Server.Session.{get_mint}
use fintech_innova_hack.Server.Session.Interleaving.{Waiter, World, arrive, settle, Reach}
use fintech_innova_hack.Server.Session.Interleaving.Isolation.{
  All-Memᴰ, Reach-IsSound, settled_slot,
}

-- The API never mints one bearer twice.
abbrev pub HasFreshBearers : World → Type 0
HasFreshBearers w = (i j : ℕ) (t : Text) → Memᴰ (i, ok t) w.ended → Memᴰ (j, ok t) w.ended → i ≡ j

-- In every interleaving, if no two mints gave one bearer, two visitors who were given the same bearer
-- have the same client key.
pub shared_bearer_same_client :
    {w : World} (x y : Waiter) (t : Text)
    → Reach w
    → HasFreshBearers w
    → Memᴰ (x, t) w.opened
    → Memᴰ (y, t) w.opened
    → x.key ≡ y.key
shared_bearer_same_client {w} x y t r fresh mx my =
    let h = Reach-IsSound r in
    let P = λ (o : Waiter × Text). (h.owner o.0.mint ≡ o.0.key) × (o.0.mint < w.next) in
    let E = λ (o : Waiter × Text). Memᴰ (o.0.mint, ok o.1) w.ended in
    let same =
      fresh x.mint y.mint t (All-Memᴰ E w.opened h.opened_ended mx)
        (All-Memᴰ E w.opened h.opened_ended my) in
    sym (All-Memᴰ P w.opened h.opened_owned mx).0
    ∙ ap h.owner same
    ∙ (All-Memᴰ P w.opened h.opened_owned my).0

-- In every interleaving, a client has at most one mint in flight.
pub one_mint_per_client :
    {w : World} (i j : ℕ) (k : Text) → Reach w → Memᴰ (i, k) w.flying → Memᴰ (j, k) w.flying → i ≡ j
one_mint_per_client {w} i j k r mi mj =
    let h = Reach-IsSound r in
    let P = λ (f : ℕ × Text). get_mint f.1 w.slots ≡ some f.0 in
    ground (arith, All-Memᴰ P w.flying h.flying_slots mi, All-Memᴰ P w.flying h.flying_slots mj)

-- In every interleaving, once a mint is answered, with a bearer or with an error, the next visitor
-- with its client key starts a new mint, and is not given the old one's outcome.
pub arrive-settle :
    {w : World} (v i : ℕ) (k : Text) (r : Result Text) (before after : List (ℕ × Text))
    → Reach w
    → w.flying ≡ before ++ (i, k) ∷ after
    → (arrive v k (settle i k r (before ++ after) w)).flying ≡ (w.next, k) ∷ before ++ after
unfolding arrive
arrive-settle {w} v i k r before after reached e =
    rw (settled_slot w i k r before after e (Reach-IsSound reached)) (unfold settle in refl)
