-- ===== src/Format/Times.antt =====
-- The times of frontend/lib/format.ts. `Date` and the three `Intl.DateTimeFormat`s are the fields of
-- `Calendar`; an instant is a whole number of milliseconds.
pub mod Laws
mod Examples
use fintech_innova_hack.Prelude.{
  ℕ, ◌+◌, ◌-◌, ◌*◌, ◌/◌, ◌%◌, Option, none, some, [], ◌∷◌, ◌++◌, ltb, ◌==◌, if◌then◌else◌,
}
use fintech_innova_hack.Prelude.Text.{Text, codes}
use fintech_innova_hack.Prelude.Int.{ℤ, pos_part, neg_part}
use fintech_innova_hack.Format.Decimal.{decimal}
use fintech_innova_hack.Format.Labels.{no_value}

-- `parse` is `new Date(iso).getTime()`, `none` where that is NaN.
pub record Calendar : Type 0 where
  pub parse : Text → Option ℤ
  pub date_time : ℤ → Text
  pub date_only : ℤ → Text
  pub time_only : ℤ → Text

-- An empty timestamp is as good as none.
formatted : (Text → Option ℤ) → (ℤ → Text) → Option Text → Text
formatted parse show none = no_value
formatted parse show (some []) = no_value
formatted parse show (some (c ∷ s)) = elim (parse (c ∷ s)) [
  | none ↦ no_value
  | some instant ↦ show instant
]

unfoldable pub date_time_of : Calendar → Option Text → Text
unfolding formatted
date_time_of cal = formatted cal.parse cal.date_time

unfoldable pub date_of : Calendar → Option Text → Text
unfolding formatted
date_of cal = formatted cal.parse cal.date_only

unfoldable pub time_of : Calendar → Option Text → Text
unfolding formatted
time_of cal = formatted cal.parse cal.time_only

-- `Math.round((now - then) / 1000)`, `none` where that is below zero.
unfoldable pub elapsed : ℤ → ℤ → Option ℕ
elapsed now past =
    let later = pos_part now + neg_part past + 500 in
    let earlier = pos_part past + neg_part now in
    if ltb later earlier then none else some ((later - earlier) / 1000)

-- The label of an age in seconds; `date` is what an old one falls back to.
unfoldable pub age_label : ℕ → Text → Text
age_label seconds date =
    let minutes = seconds / 60 in
    let hours = minutes / 60 in
    let days = hours / 24 in
    if ltb seconds 10
    then codes "just now"
    else if ltb seconds 60
    then decimal seconds ++ codes "s ago"
    else if ltb minutes 60
    then decimal minutes ++ codes " min ago"
    else if ltb hours 24
    then decimal hours ++ codes "h ago"
    else if ltb days 7
    then decimal days ++ codes "d ago"
    else date

age_or_date : Calendar → Option Text → Option ℕ → Text
unfolding age_label date_time_of date_of
age_or_date cal iso none = date_time_of cal iso
age_or_date cal iso (some seconds) = age_label seconds (date_of cal iso)

since : Calendar → Option Text → ℤ → Option ℤ → Text
unfolding elapsed age_or_date
since cal iso now none = no_value
since cal iso now (some past) = age_or_date cal iso (elapsed now past)

unfoldable pub relative_time : Calendar → Option Text → ℤ → Text
unfolding since
relative_time cal none now = no_value
relative_time cal (some []) now = no_value
relative_time cal (some (c ∷ s)) now = since cal (some (c ∷ s)) now (cal.parse (c ∷ s))

days_and_hours : ℕ → ℕ → Text
days_and_hours days rest =
    if rest == 0
    then decimal days ++ codes "d"
    else decimal days ++ (codes "d " ++ (decimal rest ++ codes "h"))

-- The hours are a whole number; `none` also stands for one that is not finite.
unfoldable pub duration_hours : Option ℕ → Text
unfolding days_and_hours
duration_hours none = no_value
duration_hours (some hours) =
    if ltb hours 24 then decimal hours ++ codes "h" else days_and_hours (hours / 24) (hours % 24)
