-- ===== src/Format/Times/Examples.antt =====
-- A calendar that knows one timestamp, and the ages and durations shown of it.
use fintech_innova_hack.Prelude.{◌≡◌, refl, some}
use fintech_innova_hack.Prelude.Text.{codes}
use fintech_innova_hack.Prelude.Int.{pos}
use fintech_innova_hack.Format.Decimal.{decimal}
use fintech_innova_hack.Format.Times.{Calendar, elapsed, relative_time}

abbrev calendar : Calendar
calendar = record {
  parse = λ iso. some (pos 1000);
  date_time = λ instant. codes "1 Jan 1970, 00:00";
  date_only = λ instant. codes "1 Jan 1970";
  time_only = λ instant. codes "00:00";
}

two_hours : relative_time calendar (some (codes "1970")) (pos 7201000) ≡ codes "2h ago"
unfolding relative_time decimal
two_hours = refl

-- A time that lies ahead is written out.
ahead : relative_time calendar (some (codes "1970")) (pos 0) ≡ codes "1 Jan 1970, 00:00"
unfolding relative_time
ahead = refl

elapsed_hours : elapsed (pos 7201000) (pos 1000) ≡ some 7200
unfolding elapsed
elapsed_hours = refl
