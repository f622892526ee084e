-- ===== src/Server/Session/Interleaving.antt =====
-- How the requests of several visitors interleave in frontend/lib/server/session.ts. A request of a
-- visitor without a session runs `resolveSession` up to its `await` in one step; a mint's reply runs
-- the callback of `finally`; then each request that awaited it goes on by itself, in any order.
pub mod Slots
pub mod Isolation
pub mod Sharing
mod Examples
use fintech_innova_hack.Prelude.{
  ℕ, suc, ◌≡◌, Option, none, some, List, [], ◌∷◌, ◌++◌, ◌==◌, if◌then◌else◌,
}
use fintech_innova_hack.Prelude.Text.{Text}
use fintech_innova_hack.Server.Http.{Result, Error, ok, err}
use fintech_innova_hack.Server.Session.{get_mint, delete_mint}
use mathlib.Core.List.{Memᴰ}

-- A request that awaits the mint under its client's key.
pub record Waiter : Type 0 where
  pub visitor : ℕ
  pub key : Text
  pub mint : ℕ

-- `slots` is `mintsInFlight`, with a promise named by its number. `flying` are the mints that the API
-- has not answered, with the key that their callback will free; `ended` is how the others ended.
pub record World : Type 0 where
  pub slots : List (Text × ℕ)
  pub next : ℕ
  pub flying : List (ℕ × Text)
  pub ended : List (ℕ × Result Text)
  pub waiting : List Waiter
  pub opened : List (Waiter × Text)
  pub failed : List Waiter

abbrev pub start : World
start = record {
  slots = [];
  next = 0;
  flying = [];
  ended = [];
  waiting = [];
  opened = [];
  failed = [];
}

abbrev await : ℕ → Text → ℕ → List Waiter → List Waiter
await v k i ws = record { visitor = v; key = k; mint = i } ∷ ws

-- A visitor without a session joins the mint under its key, or starts one.
join_or_start : ℕ → Text → World → Option ℕ → World
join_or_start v k w (some i) = record w { waiting = await v k i w.waiting }
join_or_start v k w none = record w {
  slots = (k, w.next) ∷ w.slots;
  next = suc w.next;
  flying = (w.next, k) ∷ w.flying;
  waiting = await v k w.next w.waiting;
}

unfoldable pub arrive : ℕ → Text → World → World
unfolding join_or_start
arrive v k w = join_or_start v k w (get_mint k w.slots)

-- `if (mintsInFlight.get(key) === inflight) mintsInFlight.delete(key)`
free_if : Text → ℕ → List (Text × ℕ) → Option ℕ → List (Text × ℕ)
free_if k i slots none = slots
free_if k i slots (some j) = if j == i then delete_mint k slots else slots

unfoldable pub free_slot : Text → ℕ → List (Text × ℕ) → List (Text × ℕ)
unfolding free_if
free_slot k i slots = free_if k i slots (get_mint k slots)

-- The mint `i` of the key `k` is answered by `r`; `rest` are the others that fly.
unfoldable pub settle : ℕ → Text → Result Text → List (ℕ × Text) → World → World
unfolding free_slot
settle i k r rest w = record w {
  slots = free_slot k i w.slots;
  flying = rest;
  ended = (i, r) ∷ w.ended;
}

pub data Step (w : World) : World → Type 0 where
  arriving : (v : ℕ) (k : Text) → Step w (arrive v k w)
  settling :
      (i : ℕ) (k : Text) (r : Result Text) (before after : List (ℕ × Text))
      → w.flying ≡ before ++ (i, k) ∷ after
      → Step w (settle i k r (before ++ after) w)
  opening :
      (x : Waiter) (t : Text) (before after : List Waiter)
      → w.waiting ≡ before ++ x ∷ after
      → Memᴰ (x.mint, ok t) w.ended
      → Step w (record w { waiting = before ++ after; opened = (x, t) ∷ w.opened })
  failing :
      (x : Waiter) (before after : List Waiter)
      → w.waiting ≡ before ++ x ∷ after
      → (e : Error) → Memᴰ (x.mint, err e) w.ended
      → Step w (record w { waiting = before ++ after; failed = x ∷ w.failed })

pub data Reach : World → Type 0 where
  begin : Reach start
  next : {w w' : World} → Reach w → Step w w' → Reach w'
