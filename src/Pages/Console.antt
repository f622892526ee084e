-- ===== src/Pages/Console.antt =====
-- frontend/app/(product)/developer/console/page.tsx: the inspector of raw replies. While a reply is
-- awaited the person may choose another operation, and the button is disabled.
use mathlib.Core.List.{Memᴰ}
use mathlib.Core.Path.{subst}
use fintech_innova_hack.Prelude.{
  ℕ, zero, suc, ◌≡◌, refl, sym, ◌∙◌, ◌⊎◌, inl, inr, Bool, true, false, Option, none, some, List, [],
  ◌∷◌, ◌++◌, All, get_elem?,
}
use fintech_innova_hack.Prelude.Text.{Text, codes}
use fintech_innova_hack.Json.{Json, null}
use fintech_innova_hack.Format.Decimal.{decimal}
use fintech_innova_hack.Client.{Browser, Answer, ApiError, value, failure}
use fintech_innova_hack.Client.Endpoints.{
  Endpoint, get_readiness, get_evaluation_metrics, get_policy_parameters, get_me, list_agents,
  list_credit_applications, get_underwriting_queue, list_vaults, list_transactions, list_repayments,
  get_risk_summary, list_risk_events, list_audit_events, verify_audit_chain, list_vendors,
  get_dashboard_summary, endpoint_method, read,
}

unfoldable pub inspectable : List (Text × Endpoint)
inspectable =
    (codes "Readiness", get_readiness)
    ∷ (codes "Evaluation metrics", get_evaluation_metrics)
    ∷ (codes "Policy parameters", get_policy_parameters)
    ∷ (codes "Workspace identity", get_me)
    ∷ (codes "Agents", list_agents)
    ∷ (codes "Credit applications", list_credit_applications)
    ∷ (codes "Underwriting queue", get_underwriting_queue)
    ∷ (codes "Vaults", list_vaults)
    ∷ (codes "Transactions", list_transactions none none none)
    ∷ (codes "Repayments", list_repayments)
    ∷ (codes "Risk summary", get_risk_summary)
    ∷ (codes "Risk events", list_risk_events)
    ∷ (codes "Audit events", list_audit_events)
    ∷ (codes "Audit chain verification", verify_audit_chain)
    ∷ (codes "Vendors", list_vendors)
    ∷ (codes "Dashboard summary", get_dashboard_summary)
    ∷ []

-- `calls` is what has been asked for so far, and `awaited` the operation whose reply is to come.
pub record Inspector : Type 0 where
  pub index : ℕ
  pub payload : Json
  pub error : Option Text
  pub busy : Bool
  pub awaited : Option Endpoint
  pub calls : List Endpoint

abbrev pub idle_inspector : Inspector
idle_inspector = record {
  index = 0;
  payload = null;
  error = none;
  busy = false;
  awaited = none;
  calls = [];
}

-- `${status} ${code}: ${detail}`
unfoldable pub error_text : ApiError → Text
unfolding decimal
error_text e = decimal e.status ++ b' ' ∷ (e.code ++ codes ": " ++ e.detail)

-- `fetchIt` up to its call.
unfoldable pub begin_fetch : Text × Endpoint → Inspector → Inspector
begin_fetch (label, e) c = record c {
  busy = true;
  error = none;
  awaited = some e;
  calls = e ∷ c.calls;
}

-- `fetchIt` after its call, with `catch` and `finally`.
-- `request` rejects with an `ApiError` only, so `String(caught)` is not reached.
unfoldable pub end_fetch : Answer → Inspector → Inspector
unfolding error_text
end_fetch (value v) c = record c { payload = v; busy = false; awaited = none }
end_fetch (failure e) c = record c {
  payload = null;
  error = some (error_text e);
  busy = false;
  awaited = none;
}

-- What happens to the inspector in a browser: an entry of the list is chosen, the button is pressed
-- while it is enabled, or the reply to the call arrives.
pub data Inspection (b : Browser) : Inspector → Inspector → Type 0 where
  choose :
      (c : Inspector) (i : ℕ) (entry : Text × Endpoint)
      → get_elem? inspectable i ≡ some entry
      → Inspection b c (record c { index = i })
  press :
      (c : Inspector) (entry : Text × Endpoint)
      → c.busy ≡ false
      → get_elem? inspectable c.index ≡ some entry
      → Inspection b c (begin_fetch entry c)
  deliver :
      (c : Inspector) (e : Endpoint) → c.awaited ≡ some e → Inspection b c (end_fetch (read b e) c)

pub data Inspected (b : Browser) : Inspector → Type 0 where
  unused : Inspected b idle_inspector
  next : {c d : Inspector} → Inspected b c → Inspection b c d → Inspected b d

-- All that was asked for only reads, a reply is awaited exactly while the button is disabled, an error
-- stands alone, and what is shown is the reply to something that was asked for.
pub record IsSound (b : Browser) (c : Inspector) : Type 0 where
  pub reads : All (λ e. endpoint_method e ≡ codes "GET") c.calls
  pub waits :
      ((c.busy ≡ false) × (c.awaited ≡ none))
      ⊎ ((c.busy ≡ true)
          × (c.error ≡ none)
          × ((e : Endpoint) × (c.awaited ≡ some e) × Memᴰ e c.calls))
  pub alone : (c.error ≡ none) ⊎ (c.payload ≡ null)
  pub genuine :
      (c.payload ≡ null) ⊎ ((e : Endpoint) × Memᴰ e c.calls × (read b e ≡ value c.payload))

all_get_elem? :
    (P : Text × Endpoint → Type 0) (es : List (Text × Endpoint)) (i : ℕ) (e : Text × Endpoint)
    → All P es
    → get_elem? es i ≡ some e
    → P e
all_get_elem? P [] i e h q = absurd (cc q)
all_get_elem? P (x ∷ es) zero e (p, h) q = let same : x ≡ e = cc q in subst P same p
all_get_elem? P (x ∷ es) (suc i) e (p, h) q = all_get_elem? P es i e h q

inspectable-reads : All (λ (p : Text × Endpoint). endpoint_method p.1 ≡ codes "GET") inspectable
unfolding inspectable endpoint_method
inspectable-reads = (
  refl,
  (
    refl,
    (
      refl,
      (
        refl,
        (
          refl,
          (
            refl,
            (refl, (refl, (refl, (refl, (refl, (refl, (refl, (refl, (refl, (refl, tt)))))))))),
          ),
        ),
      ),
    ),
  ),
)

begin_fetch-IsSound :
    (b : Browser) (c : Inspector) (label : Text) (e : Endpoint)
    → endpoint_method e ≡ codes "GET"
    → IsSound b c
    → IsSound b (begin_fetch (label, e) c)
unfolding begin_fetch
begin_fetch-IsSound b c label e get s = record {
  reads = (get, s.reads);
  waits = inr (refl, refl, (e, refl, Memᴰ.head refl));
  alone = inl refl;
  genuine = elim (s.genuine) [ inl n ↦ inl n | inr (f, m, r) ↦ inr (f, Memᴰ.tail m, r) ];
}

end_fetch-IsSound :
    (b : Browser) (c : Inspector) (e : Endpoint) (a : Answer)
    → read b e ≡ a
    → Memᴰ e c.calls
    → c.error ≡ none
    → IsSound b c
    → IsSound b (end_fetch a c)
unfolding end_fetch
end_fetch-IsSound b c e (failure f) r m n s = record {
  reads = s.reads;
  waits = inl (refl, refl);
  alone = inr refl;
  genuine = inl refl;
}
end_fetch-IsSound b c e (value v) r m n s = record {
  reads = s.reads;
  waits = inl (refl, refl);
  alone = inl n;
  genuine = inr (e, m, r);
}

Inspection-IsSound : (b : Browser) {c d : Inspector} → Inspection b c d → IsSound b c → IsSound b d
Inspection-IsSound b (choose c i entry e) s = record {
  reads = s.reads;
  waits = s.waits;
  alone = s.alone;
  genuine = s.genuine;
}
Inspection-IsSound b (press c (label, e) enabled q) s =
    begin_fetch-IsSound b c label e
      (all_get_elem? (λ p. endpoint_method p.1 ≡ codes "GET") inspectable c.index (label, e)
        inspectable-reads q)
      s
Inspection-IsSound b (deliver c e a) s = elim (s.waits) [
  | inl (idle, n) ↦ absurd (let clash : some e ≡ none = sym a ∙ n in cc clash)
  | inr (busy, n, (f, g, m)) ↦
      let same : f ≡ e = let both : some f ≡ some e = sym g ∙ a in cc both in
      end_fetch-IsSound b c e (read b e) refl (subst (λ x. Memᴰ x c.calls) same m) n s
]

-- However the inspector is used: all its calls have the method GET; its button is disabled exactly
-- while a reply is awaited; it never shows an error beside a payload; and a payload is the reply to
-- one of its calls.
pub Inspected-IsSound : (b : Browser) (c : Inspector) → Inspected b c → IsSound b c
Inspected-IsSound b c unused = record {
  reads = tt;
  waits = inl (refl, refl);
  alone = inl refl;
  genuine = inl refl;
}
Inspected-IsSound b d (next {c} r st) = Inspection-IsSound b st (Inspected-IsSound b c r)
