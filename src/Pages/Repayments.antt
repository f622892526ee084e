-- ===== src/Pages/Repayments.antt =====
-- frontend/app/(product)/repayments/page.tsx: the totals above the table of waterfall runs. Amounts are
-- exact here; the code adds doubles, which are exact below 2^53 minor units.
use fintech_innova_hack.Prelude.{Option, none, some, List, [], ◌∷◌}
use fintech_innova_hack.Prelude.Int.{ℤ, pos, ◌+ℤ◌}
use fintech_innova_hack.Types.Transactions.{RepaymentRow}

pub record Totals : Type 0 where
  pub revenue : ℤ
  pub principal : ℤ
  pub fee : ℤ
  pub reserve : ℤ
  pub owner : ℤ
  pub loss : ℤ

abbrev pub no_totals : Totals
no_totals = record {
  revenue = pos 0;
  principal = pos 0;
  fee = pos 0;
  reserve = pos 0;
  owner = pos 0;
  loss = pos 0;
}

unfoldable pub add_row : Totals → RepaymentRow → Totals
add_row acc row = record {
  revenue = acc.revenue +ℤ row.revenue_minor;
  principal = acc.principal +ℤ row.principal_minor;
  fee = acc.fee +ℤ row.fee_minor;
  reserve = acc.reserve +ℤ row.reserve_minor;
  owner = acc.owner +ℤ row.owner_minor;
  loss = acc.loss +ℤ row.loss_minor;
}

-- `rows.reduce`
unfoldable pub add_rows : Totals → List RepaymentRow → Totals
unfolding add_row
add_rows acc [] = acc
add_rows acc (row ∷ rows) = add_rows (add_row acc row) rows

-- Nothing is shown above an empty table, nor before it arrives.
unfoldable pub totals_of : Option (List RepaymentRow) → Option Totals
unfolding add_rows
totals_of none = none
totals_of (some []) = none
totals_of (some (row ∷ rows)) = some (add_rows no_totals (row ∷ rows))
