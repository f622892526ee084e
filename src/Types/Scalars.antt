-- ===== src/Types/Scalars.antt =====
-- frontend/lib/types.ts: amounts, rates and times.
use fintech_innova_hack.Prelude.Text.{Text}
use fintech_innova_hack.Prelude.Int.{ℤ}

abbrev pub Money : Type 0
Money = ℤ

abbrev pub Ppm : Type 0
Ppm = ℤ

abbrev pub Timestamp : Type 0
Timestamp = Text
