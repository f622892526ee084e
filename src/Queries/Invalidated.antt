-- ===== src/Queries/Invalidated.antt =====
-- Which queries each write marks as out of date, where the library matches a filter with the keys that
-- begin with it.
use fintech_innova_hack.Prelude.{
  ◌≡◌, refl, ◌↔◌, sym, Bool, true, false, ◌&&◌, ◌||◌, Option, none, some, List, [], ◌∷◌, ◌++◌, map,
  any, and-eq_true, ◌∙◌,
}
use fintech_innova_hack.Prelude.Text.{Text, text_eq}
use fintech_innova_hack.Prelude.Text.Laws.{text_eq_iff}
use fintech_innova_hack.Queries.{
  Query, Part, text, number, filters, window, key_of, me, applications, underwriting_queue, vaults,
  repayments, risk_summary, risk_events, audit_events, audit_chain, dashboard, underwriting, vault,
  activity, exposure,
}
use fintech_innova_hack.Queries.Writes.{
  Mutation, review_application, freeze_vault, close_vault, receive_revenue, simulate_failure,
  run_scenario, invalidate_workspace, Matches, areas, in_areas, invalidates,
}

-- What the library documents of a filter of texts: it matches the keys that begin with it.
abbrev pub IsPrefixMatch : Matches → Type 0
IsPrefixMatch matches =
    (filter : List Text) (key : List Part)
    → (matches filter key ≡ true) ↔ ((rest : List Part) × (key ≡ map (λ t. text t) filter ++ rest))

unfoldable pub begins : List Text → List Part → Bool
unfolding text_eq
begins [] key = true
begins (t ∷ ts) (text u ∷ key) = text_eq t u && begins ts key
begins (t ∷ ts) _ = false

-- What the queries show.
pub data Area : Type 0 where
  credit queue funds paid risk log chain totals history other : Area

unfoldable pub area_of : Query → Area
area_of applications = credit
area_of (underwriting id) = credit
area_of underwriting_queue = queue
area_of vaults = funds
area_of (vault id) = funds
area_of repayments = paid
area_of risk_summary = risk
area_of risk_events = log
area_of audit_events = chain
area_of audit_chain = chain
area_of dashboard = totals
area_of (activity limit) = history
area_of (exposure days) = history
area_of _ = other

-- Whether a write has what an area shows read again.
unfoldable pub refreshes : Mutation → Area → Bool
refreshes (run_scenario name) a = true
refreshes invalidate_workspace a = true
refreshes _ funds = true
refreshes _ chain = true
refreshes _ totals = true
refreshes _ other = false
refreshes (review_application id) credit = true
refreshes (review_application id) queue = true
refreshes (review_application id) risk = true
refreshes (review_application id) history = true
refreshes (freeze_vault id) risk = true
refreshes (freeze_vault id) log = true
refreshes (freeze_vault id) history = true
refreshes (close_vault id) paid = true
refreshes (close_vault id) history = true
refreshes (receive_revenue id) paid = true
refreshes (receive_revenue id) risk = true
refreshes (simulate_failure id) paid = true
refreshes (simulate_failure id) risk = true
refreshes _ _ = false

or_last : (a : Bool) → (a || true) ≡ true
or_last true = refl
or_last false = refl

payment_rows :
    (id : Text) (q : Query)
    → invalidates begins (receive_revenue id) q ≡ refreshes (receive_revenue id) (area_of q)
unfolding invalidates areas key_of begins text_eq refreshes area_of
payment_rows id me = refl
payment_rows id q = refl

failure_rows :
    (id : Text) (q : Query)
    → invalidates begins (simulate_failure id) q ≡ refreshes (simulate_failure id) (area_of q)
unfolding invalidates areas key_of begins text_eq refreshes area_of
failure_rows id me = refl
failure_rows id q = refl

review_rows :
    (id : Text) (q : Query)
    → invalidates begins (review_application id) q ≡ refreshes (review_application id) (area_of q)
unfolding invalidates areas key_of begins text_eq refreshes area_of
review_rows id me = refl
review_rows id q = refl

freeze_rows :
    (id : Text) (q : Query)
    → invalidates begins (freeze_vault id) q ≡ refreshes (freeze_vault id) (area_of q)
unfolding invalidates areas key_of begins text_eq refreshes area_of
freeze_rows id (vault v) = or_last (text_eq id v && true)
freeze_rows id q = refl

close_rows :
    (id : Text) (q : Query)
    → invalidates begins (close_vault id) q ≡ refreshes (close_vault id) (area_of q)
unfolding invalidates areas key_of begins text_eq refreshes area_of
close_rows id (vault v) = or_last (text_eq id v && true)
close_rows id q = refl

rows : (m : Mutation) (q : Query) → invalidates begins m q ≡ refreshes m (area_of q)
unfolding invalidates areas refreshes
rows (review_application id) q = review_rows id q
rows (freeze_vault id) q = freeze_rows id q
rows (close_vault id) q = close_rows id q
rows (receive_revenue id) q = payment_rows id q
rows (simulate_failure id) q = failure_rows id q
rows (run_scenario name) q = refl
rows invalidate_workspace q = refl

pub begins_iff :
    (filter : List Text) (key : List Part)
    → (begins filter key ≡ true) ↔ ((rest : List Part) × (key ≡ map (λ t. text t) filter ++ rest))
unfolding begins
begins_iff [] key = ((λ e. (key, refl)), (λ h. refl))
begins_iff (t ∷ ts) [] = ((λ e. cc), (λ (rest, h). cc))
begins_iff (t ∷ ts) (number n ∷ key) = ((λ e. cc), (λ (rest, h). cc))
begins_iff (t ∷ ts) (filters f ∷ key) = ((λ e. cc), (λ (rest, h). cc))
begins_iff (t ∷ ts) (window w ∷ key) = ((λ e. cc), (λ (rest, h). cc))
begins_iff (t ∷ ts) (text u ∷ key) = (
  λ e.
      let (same, more) = and-eq_true (text_eq t u) (begins ts key) e in
      let (rest, h) = (begins_iff ts key).0 more in
      let equal = (text_eq_iff t u).0 same in (rest, cc (equal, h)),
  λ (rest, h).
      let equal : t ≡ u = cc h in
      let more : key ≡ map (λ t. text t) ts ++ rest = cc h in
      rw ((text_eq_iff t u).1 equal, (begins_iff ts key).1 (rest, more)) refl,
)

same_test : (a b : Bool) (P : Type 0) → (a ≡ true) ↔ P → (b ≡ true) ↔ P → a ≡ b
same_test true b P h k = sym (k.1 (h.0 refl))
same_test false true P h k = h.1 (k.0 refl)
same_test false false P h k = refl

any_same {ℓ} :
    {A : Type ℓ} (p q : A → Bool) → ((x : A) → p x ≡ q x) → (xs : List A) → any p xs ≡ any q xs
any_same p q h [] = refl
any_same p q h (x ∷ xs) = rw (h x, any_same p q h xs) refl

same_areas :
    (matches : Matches)
    → IsPrefixMatch matches
    → (keys : Option (List (List Text))) (key : List Part)
    → in_areas matches keys key ≡ in_areas begins keys key
unfolding in_areas
same_areas matches documented none key = refl
same_areas matches documented (some keys) key =
    any_same (λ filter. matches filter key) (λ filter. begins filter key)
      (λ filter. same_test _ _ _ (documented filter key) (begins_iff filter key)) keys

-- A write has these areas read again, and no others. A review: the applications, the queue, the vaults,
-- the risk summary, the audit chain, and all of the dashboard. A freeze: the vaults, all of the risk
-- page, the chain and the dashboard. A closure: the vaults, the repayments, the chain and the
-- dashboard. A payment or a failure: the vaults, the repayments, the risk summary, the chain, and of the
-- dashboard only the totals. A scenario or a form of the onboarding: all.
pub invalidates-refreshes :
    (matches : Matches)
    → IsPrefixMatch matches
    → (m : Mutation) (q : Query) → invalidates matches m q ≡ refreshes m (area_of q)
unfolding invalidates
invalidates-refreshes matches documented m q =
    same_areas matches documented (areas m) (key_of q) ∙ rows m q
