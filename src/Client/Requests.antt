-- ===== src/Client/Requests.antt =====
-- What the client asks of the proxy.
use fintech_innova_hack.Prelude.{◌≡◌, refl, ◌≢◌, false, none, List, [], ◌∷◌, All}
use fintech_innova_hack.Prelude.Text.{Text, codes, text_eq, join, split}
use fintech_innova_hack.Prelude.Text.Laws.{Lacks, split-join}
use fintech_innova_hack.Server.Http.{Platform}
use fintech_innova_hack.Proxy.{Request, refusal, is_bad_segment, has_unit}
use fintech_innova_hack.Proxy.Guards.{
  IsPlain, IsMutating, IsSameSite, is_bad_segment_iff, refusal_iff,
}
use fintech_innova_hack.Client.Records.{
  Operation, path, method_of, get_agent_profile, verify_passport, list_evidence, get_underwriting,
  review_application, issue_passport, add_evidence, create_revenue_mandate, evaluate_application,
  get_vault_detail, freeze_vault, close_vault, get_transaction, receive_revenue, simulate_failure,
  get_decision_script, fetch_decision_narration,
}

-- What kind of record an operation is on, and the parts of its path after that.
abbrev pub kind : Operation → Text
kind get_agent_profile = codes "agents"
kind verify_passport = codes "agents"
kind list_evidence = codes "tasks"
kind get_underwriting = codes "credit-applications"
kind review_application = codes "credit-applications"
kind issue_passport = codes "agents"
kind add_evidence = codes "tasks"
kind create_revenue_mandate = codes "tasks"
kind evaluate_application = codes "credit-applications"
kind get_vault_detail = codes "vaults"
kind freeze_vault = codes "vaults"
kind close_vault = codes "vaults"
kind get_transaction = codes "transactions"
kind receive_revenue = codes "vaults"
kind simulate_failure = codes "vaults"
kind get_decision_script = codes "voice"
kind fetch_decision_narration = codes "voice"

abbrev pub rest : Operation → Text → List Text
rest get_agent_profile id = id ∷ codes "profile" ∷ []
rest verify_passport id = id ∷ codes "passport" ∷ codes "verify" ∷ []
rest list_evidence id = id ∷ codes "evidence" ∷ []
rest get_underwriting id = id ∷ codes "underwriting" ∷ []
rest review_application id = id ∷ codes "review" ∷ []
rest issue_passport id = id ∷ codes "passport" ∷ []
rest add_evidence id = id ∷ codes "evidence" ∷ []
rest create_revenue_mandate id = id ∷ codes "revenue-mandate" ∷ []
rest evaluate_application id = id ∷ codes "evaluate" ∷ []
rest get_vault_detail id = id ∷ codes "detail" ∷ []
rest freeze_vault id = id ∷ codes "freeze" ∷ []
rest close_vault id = id ∷ codes "close" ∷ []
rest get_transaction id = id ∷ []
rest receive_revenue id = id ∷ codes "revenue" ∷ []
rest simulate_failure id = id ∷ codes "simulate-failure" ∷ []
rest get_decision_script id = codes "decisions" ∷ id ∷ codes "script" ∷ []
rest fetch_decision_narration id = codes "decisions" ∷ id ∷ []

abbrev pub parts : Operation → Text → List Text
parts op id = codes "v1" ∷ kind op ∷ rest op id

path-join : (op : Operation) (id : Text) → path op id ≡ join b'/' ([] ∷ parts op id)
unfolding path join
path-join get_agent_profile id = refl
path-join verify_passport id = refl
path-join list_evidence id = refl
path-join get_underwriting id = refl
path-join review_application id = refl
path-join issue_passport id = refl
path-join add_evidence id = refl
path-join create_revenue_mandate id = refl
path-join evaluate_application id = refl
path-join get_vault_detail id = refl
path-join freeze_vault id = refl
path-join close_vault id = refl
path-join get_transaction id = refl
path-join receive_revenue id = refl
path-join simulate_failure id = refl
path-join get_decision_script id = refl
path-join fetch_decision_narration id = refl

-- What holds of every plain text and of the identifier holds of all parts.
module _ (P : Text → Type 0) (plain : (s : Text) → IsPlain s → P s) where
  fixed : (s : Text) → is_bad_segment s ≡ false → P s
  fixed s h = plain s ((is_bad_segment_iff s).0 h)

  parts-All : (op : Operation) (id : Text) → P id → All P (parts op id)
  unfolding is_bad_segment text_eq has_unit
  parts-All get_agent_profile id h = (
    fixed (codes "v1") refl,
    (fixed (codes "agents") refl, (h, (fixed (codes "profile") refl, tt))),
  )
  parts-All verify_passport id h = (
    fixed (codes "v1") refl,
    (
      fixed (codes "agents") refl,
      (h, (fixed (codes "passport") refl, (fixed (codes "verify") refl, tt))),
    ),
  )
  parts-All list_evidence id h = (
    fixed (codes "v1") refl,
    (fixed (codes "tasks") refl, (h, (fixed (codes "evidence") refl, tt))),
  )
  parts-All get_underwriting id h = (
    fixed (codes "v1") refl,
    (fixed (codes "credit-applications") refl, (h, (fixed (codes "underwriting") refl, tt))),
  )
  parts-All review_application id h = (
    fixed (codes "v1") refl,
    (fixed (codes "credit-applications") refl, (h, (fixed (codes "review") refl, tt))),
  )
  parts-All issue_passport id h = (
    fixed (codes "v1") refl,
    (fixed (codes "agents") refl, (h, (fixed (codes "passport") refl, tt))),
  )
  parts-All add_evidence id h = (
    fixed (codes "v1") refl,
    (fixed (codes "tasks") refl, (h, (fixed (codes "evidence") refl, tt))),
  )
  parts-All create_revenue_mandate id h = (
    fixed (codes "v1") refl,
    (fixed (codes "tasks") refl, (h, (fixed (codes "revenue-mandate") refl, tt))),
  )
  parts-All evaluate_application id h = (
    fixed (codes "v1") refl,
    (fixed (codes "credit-applications") refl, (h, (fixed (codes "evaluate") refl, tt))),
  )
  parts-All get_vault_detail id h = (
    fixed (codes "v1") refl,
    (fixed (codes "vaults") refl, (h, (fixed (codes "detail") refl, tt))),
  )
  parts-All freeze_vault id h = (
    fixed (codes "v1") refl,
    (fixed (codes "vaults") refl, (h, (fixed (codes "freeze") refl, tt))),
  )
  parts-All close_vault id h = (
    fixed (codes "v1") refl,
    (fixed (codes "vaults") refl, (h, (fixed (codes "close") refl, tt))),
  )
  parts-All get_transaction id h =
      (fixed (codes "v1") refl, (fixed (codes "transactions") refl, (h, tt)))
  parts-All receive_revenue id h = (
    fixed (codes "v1") refl,
    (fixed (codes "vaults") refl, (h, (fixed (codes "revenue") refl, tt))),
  )
  parts-All simulate_failure id h = (
    fixed (codes "v1") refl,
    (fixed (codes "vaults") refl, (h, (fixed (codes "simulate-failure") refl, tt))),
  )
  parts-All get_decision_script id h = (
    fixed (codes "v1") refl,
    (
      fixed (codes "voice") refl,
      (fixed (codes "decisions") refl, (h, (fixed (codes "script") refl, tt))),
    ),
  )
  parts-All fetch_decision_narration id h = (
    fixed (codes "v1") refl,
    (fixed (codes "voice") refl, (fixed (codes "decisions") refl, (h, tt))),
  )

kind_ne_demo : (op : Operation) → kind op ≢ codes "demo"
kind_ne_demo get_agent_profile = cc
kind_ne_demo verify_passport = cc
kind_ne_demo list_evidence = cc
kind_ne_demo get_underwriting = cc
kind_ne_demo review_application = cc
kind_ne_demo issue_passport = cc
kind_ne_demo add_evidence = cc
kind_ne_demo create_revenue_mandate = cc
kind_ne_demo evaluate_application = cc
kind_ne_demo get_vault_detail = cc
kind_ne_demo freeze_vault = cc
kind_ne_demo close_vault = cc
kind_ne_demo get_transaction = cc
kind_ne_demo receive_revenue = cc
kind_ne_demo simulate_failure = cc
kind_ne_demo get_decision_script = cc
kind_ne_demo fetch_decision_narration = cc

split-path_plain :
    (op : Operation) (id : Text) → IsPlain id → split b'/' (path op id) ≡ [] ∷ parts op id
split-path_plain op id h =
    rw (path-join op id)
      (split-join b'/' [] (parts op id) (tt, parts-All (Lacks b'/') (λ s k. k.2) op id h.2))

second_part :
    {ss more rest' : List Text} {k : Text}
    → ss ≡ codes "v1" ∷ k ∷ rest'
    → ss ≡ codes "v1" ∷ codes "demo" ∷ more
    → k ≡ codes "demo"
second_part e d = cc

-- The same of the parts that the router reads.
refusal-parts :
    (p : Platform) (req : Request) (op : Operation) (id : Text)
    → req.segments ≡ parts op id
    → req.method ≡ method_of op
    → IsPlain id
    → (IsMutating (method_of op) → IsSameSite p req)
    → refusal p req ≡ none
refusal-parts p req op id e m h same = (refusal_iff p req).1 (record {
  plain = rw e (parts-All IsPlain (λ s k. k) op id h);
  versioned = (kind op ∷ rest op id, e);
  same_site = λ w. same (rw m at w);
  scenario = λ more d. absurd (kind_ne_demo op (second_part e d));
})

-- The proxy refuses no operation on a record, if the segments that its router reads are the parts of
-- the operation's path with a plain identifier in it, and an operation that writes comes from a page of
-- the proxy's host.
pub refusal-path :
    (p : Platform) (req : Request) (op : Operation) (id : Text)
    → split b'/' (path op id) ≡ [] ∷ req.segments
    → req.method ≡ method_of op
    → IsPlain id
    → (IsMutating (method_of op) → IsSameSite p req)
    → refusal p req ≡ none
refusal-path p req op id e m h same =
    let read : req.segments ≡ parts op id = cc (e, split-path_plain op id h) in
    refusal-parts p req op id read m h same
