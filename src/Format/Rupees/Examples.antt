-- ===== src/Format/Rupees/Examples.antt =====
-- Texts of the amount fields, and instances of the theorems on them.
use fintech_innova_hack.Prelude.{◌≡◌, refl, none, some, arith}
use fintech_innova_hack.Prelude.Text.{codes}
use fintech_innova_hack.Prelude.Int.{pos, negsuc}
use fintech_innova_hack.Format.Rupees.{rupee_input_value, rupee_input_to_minor}
use fintech_innova_hack.Format.Rupees.Laws.{rupee_input_to_minor-value}

shown_plain : rupee_input_value (some (pos 240050)) ≡ codes "2400.5"
unfolding rupee_input_value
shown_plain = refl

shown_negative : rupee_input_value (some (negsuc 4)) ≡ codes "-0.05"
unfolding rupee_input_value
shown_negative = refl

-- What follows the number is not read.
read_front : rupee_input_to_minor (codes " 12.345 rupees") ≡ some 1235
unfolding rupee_input_to_minor
read_front = refl

read_exponent : rupee_input_to_minor (codes "2e3") ≡ some 200000
unfolding rupee_input_to_minor
read_exponent = refl

rejects_zero : rupee_input_to_minor (codes "0") ≡ none
unfolding rupee_input_to_minor
rejects_zero = refl

rejects_negative : rupee_input_to_minor (codes "-5") ≡ none
unfolding rupee_input_to_minor
rejects_negative = refl

rupee_input_to_minor-value_example :
    rupee_input_to_minor (rupee_input_value (some (pos 240050))) ≡ some 240050
rupee_input_to_minor-value_example = rupee_input_to_minor-value 240050 (omega arith) (omega arith)

-- The double of 1.005 is below it, and so is its hundredfold.
read_below : rupee_input_to_minor (codes "1.005") ≡ some 100
unfolding rupee_input_to_minor
read_below = refl

read_dust : rupee_input_to_minor (codes "0.004") ≡ some 0
unfolding rupee_input_to_minor
read_dust = refl

-- Just below half a paisa, what is typed is rounded up to it before it is rounded again.
read_half : rupee_input_to_minor (codes "0.0049999999999999999999") ≡ some 1
unfolding rupee_input_to_minor
read_half = refl
