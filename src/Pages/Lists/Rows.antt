-- ===== src/Pages/Lists/Rows.antt =====
-- Which rows the list pages show.
use mathlib.Core.List.{Memᴰ}
use fintech_innova_hack.Prelude.{
  ◌≡◌, refl, ◌↔◌, ◌⊎◌, inl, inr, Bool, true, false, not, ◌&&◌, some, List, [], ◌∷◌, keep, arith,
  if◌then◌else◌, Bool-cases,
}
use fintech_innova_hack.Prelude.Members.{Memᴰ-keep, keep-Memᴰ}
use fintech_innova_hack.Prelude.Text.{Text, codes, text_eq}
use fintech_innova_hack.Prelude.Text.Laws.{text_eq_iff}
use fintech_innova_hack.Types.Agents.{AgentSummary}
use fintech_innova_hack.Types.Credit.{CreditApplicationSummary}
use fintech_innova_hack.Types.Transactions.{TransactionSummary}
use fintech_innova_hack.Types.Vaults.{VaultSummary}
use fintech_innova_hack.Pages.Search.{needle_of, is_found, Finds, is_found-Finds}
use fintech_innova_hack.Pages.Lists.{
  is_off_stage, application_fields, application_listed, application_rows, is_other_status,
  vault_fields, vault_listed, vault_rows, is_other_agent, agent_fields, agent_listed, agent_rows,
  transaction_fields, transaction_rows,
}

passes :
    (drop found : Bool) → (if drop then false else found) ≡ true → (drop ≡ false) × (found ≡ true)
passes true found h = absurd (cc h)
passes false found h = (refl, h)

-- A list whose rows pass a guard and are found.
module _ {A : Type 0} (lower : Text → Text) (needle : Text) (drop : A → Bool)
    (fields : A → List Text) where
  listed : A → Bool
  listed a = if drop a then false else is_found lower needle (fields a)

  keep-listed :
      (a : A) (xs : List A)
      → Memᴰ a (keep listed xs) ↔ (Memᴰ a xs × (drop a ≡ false) × Finds lower needle (fields a))
  unfolding listed
  keep-listed a xs = (
    λ m.
        let (here, e) = Memᴰ-keep listed a xs m in
        let (on, found) = passes (drop a) (is_found lower needle (fields a)) e in
        (here, on, (is_found-Finds lower needle (fields a)).0 found),
    λ (here, on, found).
        keep-Memᴰ listed a xs here (rw on ((is_found-Finds lower needle (fields a)).1 found)),
  )

not-true : (b : Bool) → not b ≡ true → b ≡ false
not-true b h = ground arith

-- The status passes a filter that is empty, or that it equals.
other_iff :
    (none_chosen wanted status : Text)
    → ((not (text_eq wanted none_chosen) && not (text_eq status wanted)) ≡ false)
      ↔ ((wanted ≡ none_chosen) ⊎ (status ≡ wanted))
other_iff none_chosen wanted status = (
  λ h. elim (Bool-cases (text_eq wanted none_chosen)) [
    | inl e ↦ inl ((text_eq_iff wanted none_chosen).0 e)
    | inr e ↦ elim (Bool-cases (text_eq status wanted)) [
      | inl f ↦ inr ((text_eq_iff status wanted).0 f)
      | inr f ↦ absurd (let clash : true ≡ false = rw (e, f) at h in cc clash)
    ]
  ],
  λ c. elim c [
    | inl e ↦ rw ((text_eq_iff wanted none_chosen).1 e) refl
    | inr e ↦ rw ((text_eq_iff status wanted).1 e) (ground arith)
  ],
)

-- The page of vaults shows a vault exactly if it arrived, its status is the one that is chosen if one
-- is, and what was typed, trimmed and lowered, is empty or stands in its identifier, its agent's name
-- or its task's title, lowered.
pub vault_rows-Finds :
    (lower : Text → Text) (vaults : List VaultSummary) (status search : Text) (v : VaultSummary)
    → Memᴰ v (vault_rows lower (some vaults) status search) ↔ (
        Memᴰ v vaults
        × ((status ≡ []) ⊎ (v.status ≡ status))
        × Finds lower (needle_of lower search) (v.vault_id ∷ v.agent_name ∷ v.task_title ∷ []))
unfolding vault_rows vault_listed vault_fields is_other_status listed
vault_rows-Finds lower vaults status search v =
    let (to, from) =
      keep-listed lower (needle_of lower search)
        (λ (w : VaultSummary). is_other_status status w.status) vault_fields v vaults in
    (
      λ m. let (here, on, f) = to m in (here, (other_iff [] status v.status).0 on, f),
      λ (here, on, f). from (here, (other_iff [] status v.status).1 on, f),
    )

-- The same of the agents, where `ALL` chooses no status.
pub agent_rows-Finds :
    (lower : Text → Text) (agents : List AgentSummary) (filter search : Text) (a : AgentSummary)
    → Memᴰ a (agent_rows lower (some agents) filter search) ↔ (
        Memᴰ a agents
        × ((filter ≡ codes "ALL") ⊎ (a.status ≡ filter))
        × Finds lower
            (needle_of lower search)
            (a.name ∷ a.agent_id ∷ a.model_name ∷ a.owner_email ∷ []))
unfolding agent_rows agent_listed agent_fields is_other_agent listed
agent_rows-Finds lower agents filter search a =
    let (to, from) =
      keep-listed lower (needle_of lower search)
        (λ (b : AgentSummary). is_other_agent filter b.status) agent_fields a agents in
    let (open_, close) = other_iff (codes "ALL") filter a.status in
    (
      λ m. let (here, on, f) = to m in (here, open_ on, f),
      λ (here, on, f). from (here, close on, f),
    )

-- The transactions that arrived are searched and not filtered again.
pub transaction_rows-Finds :
    (lower : Text → Text) (txns : List TransactionSummary) (search : Text) (t : TransactionSummary)
    → Memᴰ t (transaction_rows lower (some txns) search) ↔ (
        Memᴰ t txns
        × Finds lower
            (needle_of lower search)
            (t.proposal_id ∷ t.agent_name ∷ t.vendor_name ∷ t.purpose_code ∷ []))
unfolding transaction_rows transaction_fields
transaction_rows-Finds lower txns search t =
    let needle = needle_of lower search in
    let found = is_found-Finds lower needle (transaction_fields t) in
    (
      λ m.
          let (here, e) =
            Memᴰ-keep (λ (u : TransactionSummary). is_found lower needle (transaction_fields u)) t
              txns m in
          (here, found.0 e),
      λ (here, f).
          keep-Memᴰ (λ (u : TransactionSummary). is_found lower needle (transaction_fields u)) t
            txns here (found.1 f),
    )

-- An application is listed exactly if it arrived, its stage passes, and it is found.
pub application_rows-Finds :
    (lower : Text → Text) (apps : List CreditApplicationSummary) (stage search : Text)
    (a : CreditApplicationSummary)
    → Memᴰ a (application_rows lower (some apps) stage search) ↔ (
        Memᴰ a apps
        × (is_off_stage stage a.status ≡ false)
        × Finds lower
            (needle_of lower search)
            (a.application_id ∷ a.agent_name ∷ a.task_title ∷ []))
unfolding application_rows application_listed application_fields listed
application_rows-Finds lower apps stage search a =
    keep-listed lower (needle_of lower search)
      (λ (b : CreditApplicationSummary). is_off_stage stage b.status) application_fields a apps
