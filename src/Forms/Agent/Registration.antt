-- ===== src/Forms/Agent/Registration.antt =====
-- What has happened when the form for an agent reports one.
use mathlib.Core.Path.{subst}
use fintech_innova_hack.Prelude.{
  ◌≡◌, refl, ◌≢◌, true, false, Option, none, some, List, [], ◌∷◌, ◌++◌, append_assoc, Bool-cases,
  Option-cases, inl, inr, sym, ap, ◌∙◌,
}
use fintech_innova_hack.Prelude.Text.{Text, codes}
use fintech_innova_hack.Prelude.Int.{pos}
use fintech_innova_hack.Json.{Json}
use fintech_innova_hack.Server.Http.{Call}
use fintech_innova_hack.Client.Records.{operation_call, issue_passport, verify_passport}
use fintech_innova_hack.Onboarding.{Outcome, resolved, rejected, Report, run_steps}
use fintech_innova_hack.Onboarding.Account.{Runs, idle, step, IsTrue, run_steps-IsTrue}
use fintech_innova_hack.Forms.Service.{Service, perform, as_text, property}
use fintech_innova_hack.Forms.Service.Laws.{answered, call_record_sound}
use fintech_innova_hack.Forms.Agent.{
  Fields, Run, ready, passport_body, after_create, keep_agent_id, after_verify, judge, truthy,
  create_call, create_run, issue_run, verify_run, steps, fresh, finish, Submission, submit_with,
  submit, refused, reasons, no_submission,
}
use fintech_innova_hack.Forms.Agent.Laws.{IsComplete, registration_ready_iff}

after_create_sound :
    (s : Service) (o : Outcome) (w w' : Run) (v : Json)
    → after_create s o w ≡ (resolved v, w')
    → (o ≡ resolved v)
      × ((id : Option Json) × (property v (codes "agent_id") ≡ some id)
          × (w' ≡ record w { agent_id = id }))
unfolding after_create keep_agent_id
after_create_sound s (rejected t) w w' v e = absurd (cc e)
after_create_sound s (resolved u) w w' v e = elim (Option-cases (property u (codes "agent_id"))) [
  | inl f ↦ absurd (cc (rw f at e))
  | inr (id, f) ↦
      let same : u ≡ v = cc (rw f at e) in
      (
        ap (λ (j : Json). resolved j) same,
        (
          id,
          subst (λ (j : Json). property j (codes "agent_id") ≡ some id) same f,
          sym (ap (λ (p : Outcome × Run). p.1) (rw f at e)),
        ),
      )
]

create_run_sound :
    (s : Service) (f : Fields) (w w' : Run) (v : Json)
    → create_run s f w ≡ (resolved v, w')
    → (answered s w.sent (create_call f) ≡ resolved v)
      × ((id : Option Json) × (property v (codes "agent_id") ≡ some id)
          × (w' ≡ record w { sent = w.sent ++ create_call f ∷ []; agent_id = id }))
unfolding create_run perform
create_run_sound s f w w' v e = after_create_sound s _ _ w' v e

issue_run_sound :
    (s : Service) (body : Json) (w w' : Run) (v : Json)
    → issue_run s body w ≡ (resolved v, w')
    → (call : Call) × (operation_call issue_passport (as_text s w.agent_id) (some body) ≡ some call)
      × (w' ≡ record w { sent = w.sent ++ call ∷ [] })
      × (answered s w.sent call ≡ resolved v)
unfolding issue_run
issue_run_sound s body w w' v e =
    let (call, made, grown, reply) =
      call_record_sound s issue_passport w.agent_id (some body) w.sent v
        (ap (λ (p : Outcome × Run). p.0) e) in
    (
      call,
      made,
      sym (ap (λ (p : Outcome × Run). p.1) e)
          ∙ ap (λ (sent : List Call). record w { sent = sent }) grown,
      reply,
    )

refused_never : (s : Service) (v : Json) (r : Option Text) (u : Json) → refused s r ≢ resolved u
unfolding refused
refused_never s v none u e = cc e
refused_never s v (some t) u e = cc e

judge_sound :
    (s : Service) (v u : Json) (p : Option (Option Json))
    → judge s v p ≡ resolved u
    → (valid : Option Json) × (p ≡ some valid) × (truthy valid ≡ true) × (v ≡ u)
unfolding judge
judge_sound s v u none e = absurd (cc e)
judge_sound s v u (some valid) e = elim (Bool-cases (truthy valid)) [
  | inl t ↦ (valid, refl, t, (cc (rw t at e)))
  | inr t ↦ absurd (refused_never s v (reasons (property v (codes "reason_codes"))) u (rw t at e))
]

after_verify_sound :
    (s : Service) (o : Outcome) (w w' : Run) (v : Json)
    → after_verify s o w ≡ (resolved v, w')
    → (o ≡ resolved v)
      × (w' ≡ record w { verification = some v })
      × ((valid : Option Json) × (property v (codes "valid") ≡ some valid) × (truthy valid ≡ true))
unfolding after_verify
after_verify_sound s (rejected t) w w' v e = absurd (cc e)
after_verify_sound s (resolved u) w w' v e =
    let (valid, p, t, same) =
      judge_sound s u v (property u (codes "valid")) (ap (λ (q : Outcome × Run). q.0) e) in
    (
      ap (λ (j : Json). resolved j) same,
      sym (ap (λ (q : Outcome × Run). q.1) e)
          ∙ ap (λ (j : Json). record w { verification = some j }) same,
      (valid, subst (λ (j : Json). property j (codes "valid") ≡ some valid) same p, t),
    )

verify_run_sound :
    (s : Service) (w w' : Run) (v : Json)
    → verify_run s w ≡ (resolved v, w')
    → (call : Call) × (operation_call verify_passport (as_text s w.agent_id) none ≡ some call)
      × (w'.sent ≡ w.sent ++ call ∷ [])
      × (w'.agent_id ≡ w.agent_id)
      × (answered s w.sent call ≡ resolved v)
      × ((valid : Option Json) × (property v (codes "valid") ≡ some valid) × (truthy valid ≡ true))
unfolding verify_run
verify_run_sound s w w' v e =
    let (o, shown, valid) = after_verify_sound s _ _ w' v e in
    let (call, made, grown, reply) =
      call_record_sound s verify_passport w.agent_id none w.sent v o in
    (call, made, rw shown grown, rw shown refl, reply, valid)

-- What has been done for an agent that is reported under `id`, after the calls `sent`.
pub record IsRegistered (s : Service) (f : Fields) (sent : List Call) (r : Submission)
    (id : Option Json) : Type 0 where
  pub complete : IsComplete f
  pub agent : Json
  pub created : answered s sent (create_call f) ≡ resolved agent
  pub id_read : property agent (codes "agent_id") ≡ some id
  pub issue : Call
  pub issued :
      operation_call issue_passport
        (as_text s id)
        (some (passport_body f complete.borrowing complete.per (pos complete.hours)))
      ≡ some issue
  pub passport : Json
  pub granted : answered s (sent ++ create_call f ∷ []) issue ≡ resolved passport
  pub verify : Call
  pub asked : operation_call verify_passport (as_text s id) none ≡ some verify
  pub calls : r.sent ≡ sent ++ create_call f ∷ issue ∷ verify ∷ []
  pub verdict : Json
  pub answered_with : answered s (sent ++ create_call f ∷ issue ∷ []) verify ≡ resolved verdict
  pub valid : Option Json
  pub valid_read : property verdict (codes "valid") ≡ some valid
  pub accepted : truthy valid ≡ true

steps_sound :
    (s : Service) (f : Fields) (sent : List Call) (c : IsComplete f) (vs : List Json) (w : Run)
    → Runs (steps s f c.borrowing c.per (pos c.hours)) (fresh sent) vs w
    → (r : Submission) → r.sent ≡ w.sent
    → IsRegistered s f sent r w.agent_id
unfolding steps
steps_sound s f sent c vs w
      (step {v = u} {w' = w1} a (step {v = g} {w' = w2} b (step {v = v} d idle))) r e =
    let (reply1, (id, id_read, made)) = create_run_sound s f (fresh sent) w1 u a in
    let (issue, issued, grown, reply2) =
      issue_run_sound s (passport_body f c.borrowing c.per (pos c.hours)) w1 w2 g b in
    let (verify, asked, more, kept, reply, (valid, read, accepted)) = verify_run_sound s w2 w _ d in
    let first : w1.sent ≡ sent ++ create_call f ∷ [] = ap (λ (u : Run). u.sent) made in
    let second : w2.sent ≡ sent ++ create_call f ∷ issue ∷ [] =
      ap (λ (u : Run). u.sent) grown
      ∙ ap (λ (xs : List Call). xs ++ issue ∷ []) first
      ∙ append_assoc sent (create_call f ∷ []) (issue ∷ []) in
    let same : w2.agent_id ≡ w1.agent_id = ap (λ (u : Run). u.agent_id) grown in
    let named : id ≡ w.agent_id = sym (kept ∙ same ∙ ap (λ (u : Run). u.agent_id) made) in
    record {
      complete = c;
      agent = u;
      created = reply1;
      id_read = id_read ∙ ap (λ i. some i) named;
      passport = g;
      granted = subst (λ (xs : List Call). answered s xs issue ≡ resolved g) first reply2;
      issue = issue;
      issued =
          subst
            (λ j.
              operation_call issue_passport (as_text s j)
                (some (passport_body f c.borrowing c.per (pos c.hours)))
              ≡ some issue)
            (sym (kept ∙ same)) issued;
      verify = verify;
      asked =
          subst (λ j. operation_call verify_passport (as_text s j) none ≡ some verify) (sym kept)
            asked;
      calls =
          e
          ∙ more
          ∙ ap (λ (xs : List Call). xs ++ verify ∷ []) second
          ∙ append_assoc sent (create_call f ∷ issue ∷ []) (verify ∷ []);
      verdict = v;
      answered_with = subst (λ (xs : List Call). answered s xs verify ≡ resolved v) second reply;
      valid = valid;
      valid_read = read;
      accepted = accepted;
    }

finish_sound :
    (s : Service) (f : Fields) (sent : List Call) (c : IsComplete f) (id : Option Json)
    → (r : Report Run) → r ≡ run_steps (steps s f c.borrowing c.per (pos c.hours)) (fresh sent)
    → (finish r).registered ≡ some id
    → IsRegistered s f sent (finish r) id
unfolding finish
finish_sound s f sent c id r same e =
    let told =
      subst
        (λ (q : Report Run).
          IsTrue (steps s f c.borrowing c.per (pos c.hours)) (fresh sent) q [] [])
        (sym same) (run_steps-IsTrue (steps s f c.borrowing c.per (pos c.hours)) (fresh sent)) in
    elim told [
      | inr (k, stopped) ↦ absurd (cc (rw k at e))
      | inl (k, done) ↦
          let agent : r.world.agent_id ≡ id = cc (rw k at e) in
          subst (λ j. IsRegistered s f sent (finish r) j) agent
            (steps_sound s f sent c done.values r.world done.ran (finish r) refl)
    ]

submit_complete :
    (s : Service) (f : Fields) (sent : List Call) (c : IsComplete f)
    → submit s f sent ≡ finish (run_steps (steps s f c.borrowing c.per (pos c.hours)) (fresh sent))
unfolding submit submit_with
submit_complete s f sent c =
    rw ((registration_ready_iff f).1 c, c.borrowing_read, c.per_read, c.hours_read) refl

idle_never :
    (s : Service) (f : Fields) (sent : List Call) (id : Option Json)
    → ready f ≡ false
    → (submit s f sent).registered ≢ some id
unfolding submit no_submission
idle_never s f sent id bad e = cc (rw bad at e)

-- If the form reports an agent, its fields were complete; it made three calls, in this order, and each
-- succeeded: the agent was created, and the reply's `agent_id` is the one reported; a passport was
-- issued for that identifier; and that agent's passport was verified, and the reply said that it is
-- valid. The passport asks for the amounts and hours of the fields, with no payment above the authority.
pub submit-IsRegistered :
    (s : Service) (f : Fields) (sent : List Call) (id : Option Json)
    → (submit s f sent).registered ≡ some id
    → IsRegistered s f sent (submit s f sent) id
submit-IsRegistered s f sent id e = elim (Bool-cases (ready f)) [
  | inr bad ↦ absurd (idle_never s f sent id bad e)
  | inl good ↦
      let c = (registration_ready_iff f).0 good in
      let same = submit_complete s f sent c in
      subst (λ r. IsRegistered s f sent r id) (sym same)
        (finish_sound s f sent c id _ refl
          (subst (λ (r : Submission). r.registered ≡ some id) same e))
]
