-- ===== src/Forms/Underwriting/Laws.antt =====
-- The cap that bound, and what has happened when a vault is shown.
use mathlib.Core.List.{Memᴰ}
use mathlib.Core.Path.{subst}
use fintech_innova_hack.Prelude.{
  ℕ, ◌+◌, ◌≤◌, ◌≡◌, refl, ◌⊎◌, inl, inr, ◌∙◌, true, Option, none, some, List, [], ◌∷◌, ◌++◌, All,
  arith, Bool-cases, if◌then◌else◌,
}
use fintech_innova_hack.Prelude.Text.{Text, codes}
use fintech_innova_hack.Prelude.Int.{ℤ, pos_part, neg_part}
use fintech_innova_hack.Json.{Json}
use fintech_innova_hack.Format.Rupees.{rupee_input_to_minor}
use fintech_innova_hack.Types.Underwriting.{DeterministicEngine}
use fintech_innova_hack.Client.{Answer, value, failure, receive}
use fintech_innova_hack.Forms.Service.{Service, browser_at, property, as_text}
use fintech_innova_hack.Forms.Underwriting.{
  less, Cap, other_caps, requested_cap, lowest_of, binding, Panel, go_to, after_fund, vault_call,
  fund_with, fund,
}

-- `x <= y`
abbrev pub AtMost : ℤ → ℤ → Type 0
AtMost x y = pos_part x + neg_part y ≤ pos_part y + neg_part x

AtMost-trans : (x y z : ℤ) → AtMost x y → AtMost y z → AtMost x z
AtMost-trans x y z h k = omega arith

pick : Cap → Cap → Cap
unfolding less
pick e lowest = if less e.amount lowest.amount then e else lowest

pick_cases :
    (e l : Cap)
    → ((pick e l ≡ e) ⊎ (pick e l ≡ l))
      × AtMost (pick e l).amount e.amount
      × AtMost (pick e l).amount l.amount
unfolding pick less
pick_cases e l = elim (Bool-cases (less e.amount l.amount)) [
  | inl h ↦ rw h (inl refl, omega arith, ground arith)
  | inr h ↦ rw h (inr refl, ground arith, omega arith)
]

-- One of the entries, and no entry is lower.
abbrev IsLowest : Cap → List Cap → Type 0
IsLowest c es = Memᴰ c es × All (λ e. AtMost c.amount e.amount) es

lowest_of-IsLowest : (l : Cap) (es : List Cap) → IsLowest (lowest_of l es) (l ∷ es)
unfolding lowest_of pick
lowest_of-IsLowest l [] = (Memᴰ.head refl, (omega arith, tt))
lowest_of-IsLowest l (e ∷ es) =
    let (here, (least, rest)) = lowest_of-IsLowest (pick e l) es in
    let (which, le_e, le_l) = pick_cases e l in
    let c = lowest_of (pick e l) es in
    (
      member here which,
      (
        AtMost-trans c.amount (pick e l).amount l.amount least le_l,
        (AtMost-trans c.amount (pick e l).amount e.amount least le_e, rest),
      ),
    )
  where
    member : {c p : Cap} → Memᴰ c (p ∷ es) → (p ≡ e) ⊎ (p ≡ l) → Memᴰ c (l ∷ e ∷ es)
    member (Memᴰ.head h) (inl k) = Memᴰ.tail (Memᴰ.head (h ∙ k))
    member (Memᴰ.head h) (inr k) = Memᴰ.head (h ∙ k)
    member (Memᴰ.tail m) which = Memᴰ.tail (Memᴰ.tail m)

-- The cap that is shown as the one that bound is one of the engine's five, and none is lower.
pub binding-IsLowest :
    (engine : DeterministicEngine) (c : Cap)
    → binding (some engine) ≡ some c
    → Memᴰ c (requested_cap engine.caps ∷ other_caps engine.caps)
      × All (λ e. AtMost c.amount e.amount) (requested_cap engine.caps ∷ other_caps engine.caps)
unfolding binding
binding-IsLowest engine c e =
    subst (λ d. IsLowest d (requested_cap engine.caps ∷ other_caps engine.caps)) (cc e)
      (lowest_of-IsLowest (requested_cap engine.caps) (other_caps engine.caps))

-- What has been done for a vault that the router is sent to.
pub record IsFunded (s : Service) (id typed path : Text) (p q : Panel) : Type 0 where
  pub per : ℕ
  pub read : rupee_input_to_minor typed ≡ some per
  pub calls : q.sent ≡ p.sent ++ vault_call id per ∷ []
  pub reply : Json
  pub answered_with :
      receive (browser_at s p.sent) (s.answer p.sent (vault_call id per)) ≡ value reply
  pub vault_id : Option Json
  pub named : property reply (codes "vault_id") ≡ some vault_id
  pub path_of : path ≡ codes "/vaults/" ++ as_text s vault_id
  pub refreshed : q.refreshed ≡ true
  pub error : q.error ≡ none

module _ (s : Service) (id typed path : Text) (p : Panel) (per : ℕ)
    (read : rupee_input_to_minor typed ≡ some per) (away : p.went_to ≡ none) where
  after_call : Panel
  after_call = record p { error = none; sent = p.sent ++ vault_call id per ∷ [] }

  go_to_sound :
      (v : Json) (o : Option (Option Json))
      → receive (browser_at s p.sent) (s.answer p.sent (vault_call id per)) ≡ value v
      → property v (codes "vault_id") ≡ o
      → (go_to s (record after_call { refreshed = true }) o).went_to ≡ some path
      → IsFunded s id typed path p (go_to s (record after_call { refreshed = true }) o)
  unfolding go_to after_call
  go_to_sound v none k f e = absurd (cc (away, e))
  go_to_sound v (some vault_id) k f e = record {
    per = per;
    read = read;
    calls = refl;
    reply = v;
    answered_with = k;
    vault_id = vault_id;
    named = f;
    path_of = cc e;
    refreshed = refl;
    error = refl;
  }

  after_fund_sound :
      (a : Answer)
      → receive (browser_at s p.sent) (s.answer p.sent (vault_call id per)) ≡ a
      → (after_fund s after_call a).went_to ≡ some path
      → IsFunded s id typed path p (after_fund s after_call a)
  unfolding after_fund after_call
  after_fund_sound (value v) k e = go_to_sound v (property v (codes "vault_id")) k refl e
  after_fund_sound (failure f) k e = absurd (cc (away, e))

fund_with_sound :
    (s : Service) (id typed path : Text) (p : Panel) (o : Option ℕ)
    → rupee_input_to_minor typed ≡ o
    → p.went_to ≡ none
    → (fund_with s id p o).went_to ≡ some path
    → IsFunded s id typed path p (fund_with s id p o)
unfolding fund_with after_call
fund_with_sound s id typed path p none read away e = absurd (cc (away, e))
fund_with_sound s id typed path p (some per) read away e =
    after_fund_sound s id typed path p per read away
      (receive (browser_at s p.sent) (s.answer p.sent (vault_call id per))) refl e

-- If the router is sent to a vault, the ceiling that was typed is an amount, one call was made, which
-- creates a vault for this application with that ceiling, its reply gave the identifier in the path,
-- and no error is shown.
pub fund-IsFunded :
    (s : Service) (id typed path : Text) (p : Panel)
    → p.went_to ≡ none
    → (fund s id typed p).went_to ≡ some path
    → IsFunded s id typed path p (fund s id typed p)
unfolding fund
fund-IsFunded s id typed path p away e =
    fund_with_sound s id typed path p (rupee_input_to_minor typed) refl away e
