-- ===== src/Onboarding/Examples.antt =====
-- A form of two writes, the second of which fails.
use mathlib.Core.List.{Memᴰ}
use fintech_innova_hack.Prelude.{ℕ, suc, ◌≡◌, refl, some, List, [], ◌∷◌}
use fintech_innova_hack.Prelude.Text.{codes, text_eq}
use fintech_innova_hack.Json.{Json, str, obj, end, entry}
use fintech_innova_hack.Onboarding.{error, resolved, rejected, Step, describe, run_steps}
use fintech_innova_hack.Onboarding.Account.{IsTrue, run_steps-IsTrue}
use fintech_innova_hack.Onboarding.Vocabulary.{Choice, evidence_types}

abbrev created : Json
created = obj (entry (codes "task_id") (str (codes "task_1")) end)

-- The world counts the rows that were created.
abbrev create_task : Step ℕ
create_task = record { label = codes "Create task"; run = λ n. (resolved created, suc n) }

abbrev attach : Step ℕ
attach = record {
  label = codes "Attach evidence";
  run = λ n. (rejected (error (codes "too large")), n);
}

abbrev form : List (Step ℕ)
form = create_task ∷ attach ∷ create_task ∷ []

-- The third step does not run: one row was created.
stops : (run_steps form 0).world ≡ 1
unfolding run_steps
stops = refl

created_told : (run_steps form 0).results ≡ created ∷ []
unfolding run_steps
created_told = refl

described : describe created ≡ some (codes "task_1")
unfolding describe text_eq
described = refl

run_steps-IsTrue_example : IsTrue form 0 (run_steps form 0) [] []
run_steps-IsTrue_example = run_steps-IsTrue form 0

abbrev task_order : Choice
task_order = record {
  value = codes "TASK_ORDER";
  label = codes "Task order";
  hint = some (codes "The order or brief the work is being done against.");
}

task_order_offered : Memᴰ task_order evidence_types
unfolding evidence_types
task_order_offered = Memᴰ.head refl
