-- ===== src/Forms/Examples.antt =====
-- A few decisions and payments, and instances of the theorems on the forms.
use fintech_innova_hack.Prelude.{
  ℕ, ◌≡◌, refl, ◌≢◌, true, false, Option, none, some, [], ◌∷◌, All, arith,
}
use fintech_innova_hack.Prelude.Text.{codes}
use fintech_innova_hack.Prelude.Int.{ℤ, pos}
use fintech_innova_hack.Format.Decimal.{decimal}
use fintech_innova_hack.Format.Rupees.{rupee_input_value, rupee_input_to_minor}
use fintech_innova_hack.Forms.Review.{
  decide, default_rupees, to_approve, approve, absent, decide-default_rupees,
}
use fintech_innova_hack.Forms.Following.{shown}
use fintech_innova_hack.Forms.Repayment.{Revenue, external_event_id, submit}

read_lower : rupee_input_to_minor (codes "1500") ≡ some 150000
unfolding rupee_input_to_minor
read_lower = refl

abbrev no_limit : Option ℤ
no_limit = none

abbrev known : ℕ
known = 2

abbrev partly : Revenue
partly = record {
  amount_minor = 150000;
  external_event_id = external_event_id (codes "vlt_1") 2 150000;
  task_completed = false;
}

abbrev fully : Revenue
fully = record {
  amount_minor = 150000;
  external_event_id = external_event_id (codes "vlt_1") 2 150000;
  task_completed = true;
}

partly_sent : submit (codes "vlt_1") 2 (codes "1500") false ≡ some partly
unfolding submit
partly_sent = refl

fully_sent : submit (codes "vlt_1") 2 (codes "1500.00") true ≡ some fully
unfolding submit
fully_sent = refl

event_shown : external_event_id (codes "vlt_1") 2 150000 ≡ codes "web-vlt_1-2-150000"
unfolding external_event_id
event_shown = refl

not_hundred : codes "7" ≢ shown (pos 10000)
unfolding rupee_input_value decimal
not_hundred = cc

not_fetched : All (λ n. codes "7" ≢ shown n) (pos 30000 ∷ pos 4950 ∷ [])
unfolding rupee_input_value decimal
not_fetched = ((cc), ((cc), tt))

decide-default_rupees_example :
    ((decide
        (some (pos 240050))
        (default_rupees (pos 300000) (some (pos 240050)))
        []
        to_approve).action
      ≡ approve)
    × ((decide
          (some (pos 240050))
          (default_rupees (pos 300000) (some (pos 240050)))
          []
          to_approve).amount_minor
        ≡ absent)
decide-default_rupees_example =
    decide-default_rupees (pos 300000) 240050 [] (omega arith) (omega arith)
