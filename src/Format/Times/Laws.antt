-- ===== src/Format/Times/Laws.antt =====
-- What an age or a duration that is shown says of the true one.
use fintech_innova_hack.Prelude.{
  ℕ, ◌+◌, ◌*◌, ◌/◌, ◌%◌, ◌≤◌, ◌<◌, ◌≡◌, refl, ◌≢◌, inl, inr, true, false, Option, none, some, [],
  ◌∷◌, ◌++◌, arith, ltb, ltb→lt, lt→ltb, ltb_false→le, ◌==◌, ==_iff, Bool-cases, if◌then◌else◌, ap,
  ◌∙◌,
}
use fintech_innova_hack.Prelude.Text.{Text, codes}
use fintech_innova_hack.Prelude.Int.{ℤ}
use fintech_innova_hack.Format.Decimal.{
  decimal, span_digits, digits_value, span-decimal, digits_value-decimal,
}
use fintech_innova_hack.Format.Times.{
  Calendar, elapsed, age_label, age_or_date, since, relative_time, duration_hours, date_of,
}

pub data TimeUnit : Type 0 where
  second minute hour day : TimeUnit

abbrev pub seconds_in : TimeUnit → ℕ
seconds_in second = 1
seconds_in minute = 60
seconds_in hour = 3600
seconds_in day = 86400

-- The next greater unit's seconds; after a week the date is shown.
abbrev pub seconds_bound : TimeUnit → ℕ
seconds_bound second = 60
seconds_bound minute = 3600
seconds_bound hour = 86400
seconds_bound day = 604800

abbrev pub suffix : TimeUnit → Text
suffix second = codes "s ago"
suffix minute = codes " min ago"
suffix hour = codes "h ago"
suffix day = codes "d ago"

not_soon : (s : ℕ) → 10 ≤ s → ltb s 10 ≡ false
not_soon s h = ground arith

age_label_counts :
    (seconds : ℕ) (date : Text)
    → 10 ≤ seconds
    → seconds < 604800
    → (n : ℕ) × (u : TimeUnit) × (age_label seconds date ≡ decimal n ++ suffix u)
      × (0 < n)
      × (n * seconds_in u ≤ seconds)
      × (seconds < (n + 1) * seconds_in u)
      × (seconds < seconds_bound u)
unfolding age_label
age_label_counts s date low high = elim (Bool-cases (ltb s 60)) [
  | inl a ↦
      let top = ltb→lt s 60 a in
      (s, second, rw (not_soon s low, a), omega arith, omega arith, omega arith, top)
  | inr a ↦ elim (Bool-cases (ltb (s / 60) 60)) [
    | inl b ↦
        let bottom = ltb_false→le s 60 a in
        let top = ltb→lt (s / 60) 60 b in
        (
          s / 60,
          minute,
          rw (not_soon s low, a, b),
          omega arith,
          omega arith,
          omega arith,
          omega arith,
        )
    | inr b ↦ elim (Bool-cases (ltb (s / 60 / 60) 24)) [
      | inl c ↦
          let bottom = ltb_false→le (s / 60) 60 b in
          let top = ltb→lt (s / 60 / 60) 24 c in
          (
            s / 60 / 60,
            hour,
            rw (not_soon s low, a, b, c),
            omega arith,
            omega arith,
            omega arith,
            omega arith,
          )
      | inr c ↦
          let bottom = ltb_false→le (s / 60 / 60) 24 c in
          let week : ltb (s / 60 / 60 / 24) 7 ≡ true = lt→ltb (s / 60 / 60 / 24) 7 (omega arith) in
          (
            s / 60 / 60 / 24,
            day,
            rw (not_soon s low, a, b, c, week),
            omega arith,
            omega arith,
            omega arith,
            high,
          )
    ]
  ]
]

-- A time that lies from ten seconds to a week in the past is shown as a count of whole units that have
-- passed: at least one, and one more has not; and no greater unit would have counted one.
pub relative_time_counts :
    (cal : Calendar) (iso : Text) (past now : ℤ) (seconds : ℕ)
    → iso ≢ []
    → cal.parse iso ≡ some past
    → elapsed now past ≡ some seconds
    → 10 ≤ seconds
    → seconds < 604800
    → (n : ℕ) × (u : TimeUnit) × (relative_time cal (some iso) now ≡ decimal n ++ suffix u)
      × (0 < n)
      × (n * seconds_in u ≤ seconds)
      × (seconds < (n + 1) * seconds_in u)
      × (seconds < seconds_bound u)
unfolding relative_time since age_or_date
relative_time_counts cal [] past now s full parsed e low high = absurd (full refl)
relative_time_counts cal (c ∷ iso) past now s full parsed e low high =
    let (n, u, shown, pos_n, lower, upper, bound) =
      age_label_counts s (date_of cal (some (c ∷ iso))) low high in
    (n, u, rw (parsed, e) shown, pos_n, lower, upper, bound)

-- How a reader takes a duration: a count of hours, of days, or of days and of hours.
after_days : ℕ → Text → Option ℕ
after_days days [] = some (days * 24)
after_days days (c ∷ rest) = some (days * 24 + digits_value 0 (span_digits rest).0)

after_count : ℕ → Text → Option ℕ
unfolding after_days
after_count n [] = none
after_count n (c ∷ rest) = if c == b'h' then some n else after_days n rest

pub read_duration : Text → Option ℕ
unfolding after_count
read_duration t = let (ds, rest) = span_digits t in after_count (digits_value 0 ds) rest

read_hours : (n : ℕ) → read_duration (decimal n ++ codes "h") ≡ some n
unfolding read_duration
read_hours n = rw (span-decimal n (codes "h") refl, digits_value-decimal n)

read_days : (n : ℕ) → read_duration (decimal n ++ codes "d") ≡ some (n * 24)
unfolding read_duration
read_days n = rw (span-decimal n (codes "d") refl, digits_value-decimal n)

read_both :
    (n r : ℕ)
    → read_duration (decimal n ++ (codes "d " ++ (decimal r ++ codes "h"))) ≡ some (n * 24 + r)
unfolding read_duration
read_both n r = rw (
  span-decimal n (codes "d " ++ (decimal r ++ codes "h")) refl,
  digits_value-decimal n,
  span-decimal r (codes "h") refl,
  digits_value-decimal r,
)

-- The duration that is shown is read back as the hours it was made of.
pub read_duration-hours : (hours : ℕ) → read_duration (duration_hours (some hours)) ≡ some hours
unfolding duration_hours
read_duration-hours h = elim (Bool-cases (ltb h 24)) [
  | inl a ↦ rw a (read_hours h)
  | inr a ↦ elim (Bool-cases (h % 24 == 0)) [
    | inl b ↦
        rw (a, b)
          (read_days (h / 24) ∙ ap (λ (n : ℕ). some n) (omega (arith, (==_iff (h % 24) 0).0 b)))
    | inr b ↦ rw (a, b) (read_both (h / 24) (h % 24) ∙ ap (λ (n : ℕ). some n) (omega arith))
  ]
]
