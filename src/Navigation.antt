-- ===== src/Navigation.antt =====
-- frontend/components/shell/nav-config.ts: the product's navigation, and which item owns a path.
pub mod Laws
mod Examples
use Prim.Native.String.{String}
use fintech_innova_hack.Prelude.{
  ℕ, Bool, ◌&&◌, ◌||◌, true, Option, none, some, List, [], ◌∷◌, ◌++◌, ltb, if◌then◌else◌, length,
}
use fintech_innova_hack.Prelude.Text.{Text, codes, text_eq, starts_with}

-- The icons, components of a library, by their names.
pub data Icon : Type 0 where
  activity arrow_left_right bot file_text gauge layout_dashboard play_circle scale scroll_text
        settings shield_alert sparkles vault :
      Icon

pub record NavItem : Type 0 where
  pub href : Text
  pub label : Text
  pub icon : Icon
  pub summary : Text
  pub match : Option (List Text)

pub record NavGroup : Type 0 where
  pub label : Text
  pub items : List NavItem

abbrev nav_item : String → String → Icon → String → NavItem
nav_item href label icon summary = record {
  href = codes href;
  label = codes label;
  icon = icon;
  summary = codes summary;
  match = none;
}

abbrev nav_group : String → List NavItem → NavGroup
nav_group label items = record { label = codes label; items = items }

abbrev pub nav : List NavGroup
nav =
    nav_group "Operations" (
      nav_item "/start" "Start here" sparkles "Register an agent and request credit, step by step"
      ∷ nav_item "/dashboard" "Overview" layout_dashboard
          "Portfolio exposure, live vaults and recent decisions"
      ∷ nav_item "/agents" "AI Agents" bot "Registered agents, passports and trust scores"
      ∷ nav_item "/credit-applications" "Credit Applications" file_text
          "Requests for task-backed working capital"
      ∷ nav_item "/underwriting" "Underwriting" scale
          "Decision comparison and the human review queue"
      ∷ nav_item "/vaults" "Credit Vaults" vault "Restricted spending facilities and their controls"
      ∷ nav_item "/transactions" "Transactions" arrow_left_right
          "Every spend attempt, allowed or blocked"
      ∷ nav_item "/repayments" "Repayments" scroll_text
          "Revenue collection and the repayment waterfall"
      ∷ [])
    ∷ nav_group "Risk & Compliance" (
        nav_item "/risk" "Risk Monitoring" shield_alert
          "Control breaches, freezes and exposure concentration"
        ∷ nav_item "/audit" "Audit Trail" activity
            "Tamper-evident hash chain of every financial event"
        ∷ nav_item "/system-intelligence" "System Intelligence" gauge
            "Live pipeline health, model assurance and policy enforcement"
        ∷ [])
    ∷ nav_group "Demonstration" (
        nav_item "/judge-demo" "Judge Demo" play_circle
          "Run the six evaluation scenarios end to end"
        ∷ [])
    ∷ nav_group "Administration"
        (nav_item "/settings" "Settings" settings "Policy parameters, vendors and workspace" ∷ [])
    ∷ []

flatten : List NavGroup → List NavItem
flatten [] = []
flatten (g ∷ gs) = g.items ++ flatten gs

unfoldable pub nav_items : List NavItem
unfolding flatten
nav_items = flatten nav

-- `pathname === candidate || pathname.startsWith(candidate + "/")`
unfoldable pub owns : Text → Text → Bool
unfolding text_eq starts_with
owns pathname candidate =
    text_eq pathname candidate || starts_with (candidate ++ b'/' ∷ []) pathname

-- `best === null || candidate.length > best.length`
is_better : Option Text → Text → Bool
is_better none candidate = true
is_better (some best) candidate = ltb (length best) (length candidate)

match_of : NavItem → List Text
match_of item = elim item.match [ none ↦ [] | some more ↦ more ]

-- The loop over an item's candidates.
over : Text → Text → List Text → Option Text → Option Text
unfolding owns is_better
over pathname href [] best = best
over pathname href (c ∷ cs) best =
    over pathname href cs (if owns pathname c && is_better best c then some href else best)

-- The loop over the items.
active_in : Text → List NavItem → Option Text → Option Text
unfolding over match_of
active_in pathname [] best = best
active_in pathname (item ∷ items) best =
    active_in pathname items (over pathname item.href (item.href ∷ match_of item) best)

unfoldable pub active_href : Text → Option Text
unfolding active_in nav_items
active_href pathname = active_in pathname nav_items none
