-- ===== src/Forms/Application/Writes/Requested.antt =====
-- What has happened when the form for a credit application shows one as submitted.
use mathlib.Core.Path.{subst}
use fintech_innova_hack.Prelude.{
  ◌≡◌, refl, ◌≢◌, true, false, Option, some, List, [], ◌∷◌, ◌++◌, map, arith, length, append_assoc,
  Bool-cases, inl, inr, sym, ap, ◌∙◌,
}
use fintech_innova_hack.Prelude.Text.{Text, codes}
use fintech_innova_hack.Prelude.Int.{pos}
use fintech_innova_hack.Json.{Json}
use fintech_innova_hack.Server.Http.{Call}
use fintech_innova_hack.Client.Records.{operation_call, create_revenue_mandate}
use fintech_innova_hack.Onboarding.{Outcome, resolved, Report, run_steps}
use fintech_innova_hack.Onboarding.Account.{Runs, idle, step, IsTrue, run_steps-IsTrue}
use fintech_innova_hack.Forms.Service.{Service, perform, as_text, property}
use fintech_innova_hack.Forms.Service.Laws.{answered, call_record_sound}
use fintech_innova_hack.Forms.Application.{Fields, ready}
use fintech_innova_hack.Forms.Application.Writes.{
  Amounts, amounts, Run, task_call, application_call, mandate_body, task_run, mandate_run,
  application_run, steps, fresh, finish, Submission, submit_with, submit,
}
use fintech_innova_hack.Forms.Application.Laws.{IsComplete, application_ready_iff}
use fintech_innova_hack.Forms.Application.Writes.Evidence.{
  after_write_sound, evidence_call, evidence_loop_sound,
}

-- A write whose reply gave an identifier under a key.
pub record IsNamed (s : Service) (key : Text) (sent : List Call) (call : Call) (id : Option Json)
    : Type 0 where
  pub reply : Json
  pub answered_with : answered s sent call ≡ resolved reply
  pub named : property reply key ≡ some id

task_run_sound :
    (s : Service) (f : Fields) (a : Amounts) (w w' : Run) (v : Json)
    → task_run s f a w ≡ (resolved v, w')
    → (id : Option Json) × (w' ≡ record w { sent = w.sent ++ task_call f a ∷ []; task_id = id })
      × IsNamed s (codes "task_id") w.sent (task_call f a) id
unfolding task_run perform
task_run_sound s f a w w' v e =
    let (o, (id, named, after)) = after_write_sound s (codes "task_id") _ _ _ w' v e in
    (id, after, record { reply = v; answered_with = o; named = named })

application_run_sound :
    (s : Service) (f : Fields) (a : Amounts) (w w' : Run) (v : Json)
    → application_run s f a w ≡ (resolved v, w')
    → (id : Option Json) × (w'
        ≡ record w { sent = w.sent ++ application_call f a w.task_id ∷ []; application_id = id })
      × IsNamed s (codes "application_id") w.sent (application_call f a w.task_id) id
unfolding application_run perform
application_run_sound s f a w w' v e =
    let (o, (id, named, after)) = after_write_sound s (codes "application_id") _ _ _ w' v e in
    (id, after, record { reply = v; answered_with = o; named = named })

mandate_run_sound :
    (s : Service) (a : Amounts) (w w' : Run) (v : Json)
    → mandate_run s a w ≡ (resolved v, w')
    → (call : Call) × (operation_call create_revenue_mandate
          (as_text s w.task_id)
          (some (mandate_body a))
        ≡ some call)
      × (w' ≡ record w { sent = w.sent ++ call ∷ [] })
unfolding mandate_run
mandate_run_sound s a w w' v e =
    let (call, made, grown, _) =
      call_record_sound s create_revenue_mandate w.task_id (some (mandate_body a)) w.sent v
        (ap (λ (p : Outcome × Run). p.0) e) in
    (
      call,
      made,
      sym (ap (λ (p : Outcome × Run). p.1) e)
          ∙ ap (λ (sent : List Call). record w { sent = sent }) grown,
    )

-- What has been done for an application that is shown under `id`, after the calls `sent`.
pub record IsRequested (s : Service) (f : Fields) (sent : List Call) (r : Submission)
    (id : Option Json) : Type 0 where
  pub complete : IsComplete f
  pub figures : Amounts
  pub read : amounts f ≡ some figures
  pub task_id : Option Json
  pub task : IsNamed s (codes "task_id") sent (task_call f figures) task_id
  pub evidence : List Call
  pub stored : map (λ call. some call) evidence ≡ map (evidence_call s task_id) f.drafts
  pub mandate : Call
  pub locked :
      operation_call create_revenue_mandate (as_text s task_id) (some (mandate_body figures))
      ≡ some mandate
  pub calls :
      r.sent
      ≡ (sent ++ task_call f figures ∷ evidence ++ mandate ∷ [])
        ++ application_call f figures task_id ∷ []
  pub application :
      IsNamed s
        (codes "application_id")
        (sent ++ task_call f figures ∷ evidence ++ mandate ∷ [])
        (application_call f figures task_id)
        id
  pub receipts : length r.receipts ≡ length f.drafts

before_last :
    (sent : List Call) (t : Call) (es : List Call) (m : Call)
    → ((sent ++ t ∷ []) ++ es) ++ m ∷ [] ≡ (sent ++ t ∷ es) ++ m ∷ []
before_last sent t es m = ap (λ (xs : List Call). xs ++ m ∷ []) (append_assoc sent (t ∷ []) es)

steps_sound :
    (s : Service) (f : Fields) (sent : List Call) (c : IsComplete f) (a : Amounts)
    → amounts f ≡ some a
    → (vs : List Json) (w : Run) → Runs (steps s f a) (fresh sent) vs w
    → (r : Submission) → r.sent ≡ w.sent
    → r.receipts ≡ w.receipts
    → IsRequested s f sent r w.application_id
unfolding steps
steps_sound s f sent c a read vs w
      (step {w' = w1} p (step {w' = w2} q (step {w' = w3} t (step {v = v} u idle)))) r e g =
    let (id, made, named) = task_run_sound s f a (fresh sent) w1 _ p in
    let held = evidence_loop_sound s f.drafts [] w1 w2 _ q in
    let (mandate, locked, more) = mandate_run_sound s a w2 w3 _ t in
    let (application, done, shown) = application_run_sound s f a w3 w v u in
    let id1 : w1.task_id ≡ id = ap (λ (z : Run). z.task_id) made in
    let id2 : w2.task_id ≡ id = ap (λ (z : Run). z.task_id) held.after ∙ id1 in
    let id3 : w3.task_id ≡ id = ap (λ (z : Run). z.task_id) more ∙ id2 in
    let sent3 : w3.sent ≡ sent ++ task_call f a ∷ held.calls ++ mandate ∷ [] =
      ap (λ (z : Run). z.sent) more
      ∙ ap (λ (z : Run). z.sent ++ mandate ∷ []) held.after
      ∙ ap (λ (z : Run). (z.sent ++ held.calls) ++ mandate ∷ []) made
      ∙ before_last sent (task_call f a) held.calls mandate in
    let kept : w.receipts ≡ held.receipts =
      ap (λ (z : Run). z.receipts) done
      ∙ ap (λ (z : Run). z.receipts) more
      ∙ ap (λ (z : Run). z.receipts) held.after in
    record {
      complete = c;
      figures = a;
      read = read;
      task_id = id;
      task = named;
      evidence = held.calls;
      stored =
          subst (λ j. map (λ call. some call) held.calls ≡ map (evidence_call s j) f.drafts) id1
            held.each;
      mandate = mandate;
      locked =
          subst
            (λ j.
              operation_call create_revenue_mandate (as_text s j) (some (mandate_body a))
              ≡ some mandate)
            id2 locked;
      calls =
          e
          ∙ ap (λ (z : Run). z.sent) done
          ∙ ap (λ (j : Option Json). w3.sent ++ application_call f a j ∷ []) id3
          ∙ ap (λ (xs : List Call). xs ++ application_call f a id ∷ []) sent3;
      application =
          subst
            (λ (j : Option Json).
              IsNamed s (codes "application_id")
                (sent ++ task_call f a ∷ held.calls ++ mandate ∷ []) (application_call f a id) j)
            (sym (ap (λ (z : Run). z.application_id) done))
            (subst
              (λ (xs : List Call).
                IsNamed s (codes "application_id") xs (application_call f a id) application)
              sent3
              (subst
                (λ (j : Option Json).
                  IsNamed s (codes "application_id") w3.sent (application_call f a j) application)
                id3 shown));
      receipts = omega (arith, ap (λ (xs : List Json). length xs) (g ∙ kept), held.count);
    }

finish_sound :
    (s : Service) (f : Fields) (sent : List Call) (c : IsComplete f) (a : Amounts)
    → amounts f ≡ some a
    → (id : Option Json) → (r : Report Run) → r ≡ run_steps (steps s f a) (fresh sent)
    → (finish r).application ≡ some id
    → IsRequested s f sent (finish r) id
unfolding finish
finish_sound s f sent c a read id r same e =
    let told =
      subst (λ (q : Report Run). IsTrue (steps s f a) (fresh sent) q [] []) (sym same)
        (run_steps-IsTrue (steps s f a) (fresh sent)) in
    elim told [
      | inr (k, stopped) ↦ absurd (cc (rw k at e))
      | inl (k, done) ↦
          let shown : r.world.application_id ≡ id = cc (rw k at e) in
          subst (λ j. IsRequested s f sent (finish r) j) shown
            (steps_sound s f sent c a read done.values r.world done.ran (finish r) refl refl)
    ]

-- The amounts and the hours of a form that is complete are read.
amounts_complete : (f : Fields) → IsComplete f → (a : Amounts) × (amounts f ≡ some a)
unfolding amounts
amounts_complete f c = (
  record {
    requested = c.requested.0;
    cost = c.cost.0;
    revenue = c.revenue.0;
    reserve = c.reserve.0;
    owner_cap = c.owner_cap.0;
    hours = pos c.hours;
  },
  rw (c.requested.1, c.cost.1, c.revenue.1, c.reserve.1, c.owner_cap.1, c.hours_read) refl,
)

submit_complete :
    (s : Service) (f : Fields) (sent : List Call) (shown : List Json) (a : Amounts)
    → ready f ≡ true
    → amounts f ≡ some a
    → submit s f sent shown ≡ finish (run_steps (steps s f a) (fresh sent))
unfolding submit submit_with
submit_complete s f sent shown a good read = rw (good, read) refl

idle_never :
    (s : Service) (f : Fields) (sent : List Call) (shown : List Json) (id : Option Json)
    → ready f ≡ false
    → (submit s f sent shown).application ≢ some id
unfolding submit submit_with
idle_never s f sent shown id bad e = cc (rw bad at e)

-- If the form shows an application as submitted, its fields were complete, and it made these calls and
-- no others, in this order: one that created the task; one for each piece of evidence, in the order of
-- the form, for the task that came back; the mandate for that task; and the application, which names
-- it too. The identifier shown is the one in the last reply, and there is a receipt for each piece of
-- evidence.
pub submit-IsRequested :
    (s : Service) (f : Fields) (sent : List Call) (shown : List Json) (id : Option Json)
    → (submit s f sent shown).application ≡ some id
    → IsRequested s f sent (submit s f sent shown) id
submit-IsRequested s f sent shown id e = elim (Bool-cases (ready f)) [
  | inr bad ↦ absurd (idle_never s f sent shown id bad e)
  | inl good ↦
      let c = (application_ready_iff f).0 good in
      let (a, read) = amounts_complete f c in
      let same = submit_complete s f sent shown a good read in
      subst (λ r. IsRequested s f sent r id) (sym same)
        (finish_sound s f sent c a read id _ refl
          (subst (λ (r : Submission). r.application ≡ some id) same e))
]
