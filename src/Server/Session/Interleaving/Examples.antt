-- ===== src/Server/Session/Interleaving/Examples.antt =====
-- Two visitors behind one address arrive before the mint that the first started is answered.
use mathlib.Core.List.{Memᴰ}
use mathlib.Core.Path.{subst}
use fintech_innova_hack.Prelude.{ℕ, ◌≡◌, refl, [], ◌∷◌, ◌++◌, ap, sym, ◌∙◌}
use fintech_innova_hack.Prelude.Text.{Text, codes}
use fintech_innova_hack.Server.Http.{Result, ok}
use fintech_innova_hack.Server.Session.{get_mint, delete_mint}
use fintech_innova_hack.Server.Session.Interleaving.{
  Waiter, World, start, arrive, free_slot, settle, arriving, settling, opening, Reach, begin, next,
}
use fintech_innova_hack.Server.Session.Interleaving.Sharing.{
  HasFreshBearers, shared_bearer_same_client, one_mint_per_client,
}

abbrev key : Text
key = codes "10.0.0.2|ua"

abbrev bearer : Text
bearer = codes "tok_1"

abbrev first : Waiter
first = record { visitor = 0; key = key; mint = 0 }

abbrev second : Waiter
second = record { visitor = 1; key = key; mint = 0 }

abbrev both_wait : World
both_wait = arrive 1 key (arrive 0 key start)

both_wait-Reach : Reach both_wait
both_wait-Reach = next (next begin (arriving 0 key)) (arriving 1 key)

-- The second visitor starts no mint of its own.
second_joins : both_wait.flying ≡ (0, key) ∷ []
unfolding arrive get_mint
second_joins = refl

both_waiting : both_wait.waiting ≡ second ∷ first ∷ []
unfolding arrive get_mint
both_waiting = refl

abbrev answered : World
answered = settle 0 key (ok bearer) ([] ++ []) both_wait

-- Once the mint is answered, its slot is free.
slot_freed : answered.slots ≡ []
unfolding settle arrive get_mint free_slot delete_mint
slot_freed = refl

answered_waiting : answered.waiting ≡ second ∷ first ∷ []
unfolding settle arrive get_mint
answered_waiting = refl

answered_ended : answered.ended ≡ (0, ok bearer) ∷ []
unfolding settle arrive get_mint
answered_ended = refl

abbrev one_opened : World
one_opened = record answered {
  waiting = [] ++ first ∷ [];
  opened = (second, bearer) ∷ answered.opened;
}

abbrev both_opened : World
both_opened = record one_opened { waiting = [] ++ []; opened = (first, bearer) ∷ one_opened.opened }

bearer_ended : Memᴰ (0, ok bearer) answered.ended
bearer_ended = rw answered_ended (Memᴰ.head refl)

both_opened-Reach : Reach both_opened
both_opened-Reach =
    next
      (next (next both_wait-Reach (settling 0 key (ok bearer) [] [] second_joins))
        (opening second bearer [] (first ∷ []) answered_waiting bearer_ended))
      (opening first bearer [] [] refl bearer_ended)

only_mint : (i : ℕ) (t : Text) → Memᴰ {A = ℕ × Result Text} (i, ok t) ((0, ok bearer) ∷ []) → i ≡ 0
only_mint i t (Memᴰ.head e) = ap (λ (p : ℕ × Result Text). p.0) e
only_mint i t (Memᴰ.tail m) = elim m [ ]

both_opened-HasFreshBearers : HasFreshBearers both_opened
both_opened-HasFreshBearers i j t m n =
    only_mint i t (subst (λ ended. Memᴰ {A = ℕ × Result Text} (i, ok t) ended) answered_ended m)
    ∙ sym (
        only_mint j t
          (subst (λ ended. Memᴰ {A = ℕ × Result Text} (j, ok t) ended) answered_ended n))

shared_bearer_same_client_example : second.key ≡ first.key
shared_bearer_same_client_example =
    shared_bearer_same_client second first bearer both_opened-Reach both_opened-HasFreshBearers
      (Memᴰ.tail (Memᴰ.head refl)) (Memᴰ.head refl)

in_flight : Memᴰ (0, key) both_wait.flying
in_flight = rw second_joins (Memᴰ.head refl)

one_mint_per_client_example : first.mint ≡ second.mint
one_mint_per_client_example = one_mint_per_client 0 0 key both_wait-Reach in_flight in_flight
