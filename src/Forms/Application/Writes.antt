-- ===== src/Forms/Application/Writes.antt =====
-- frontend/components/onboarding/new-application.tsx: the bodies that the form for a credit application
-- sends, and what submitting it does.
pub mod Evidence
pub mod Requested
use fintech_innova_hack.Prelude.{
  ℕ, Option, none, some, ◌>>=◌, List, [], ◌∷◌, ◌++◌, if◌then◌else◌, length,
}
use fintech_innova_hack.Prelude.Text.{Text, codes, trim}
use fintech_innova_hack.Prelude.Int.{ℤ}
use fintech_innova_hack.Json.{Json, Elems, Entries, null, str, arr, obj, end, entry}
use fintech_innova_hack.Format.Decimal.{decimal}
use fintech_innova_hack.Format.Rupees.{rupee_input_to_minor}
use fintech_innova_hack.Server.Http.{Call}
use fintech_innova_hack.Client.Records.{add_evidence, create_revenue_mandate}
use fintech_innova_hack.Client.Endpoints.{create_task, create_application}
use fintech_innova_hack.Onboarding.{error, Outcome, resolved, rejected, Step, Report, run_steps}
use fintech_innova_hack.Forms.Service.{
  Service, perform, endpoint_call, call_record, property, entry_some, natural, integer, texts,
  parse_int,
}
use fintech_innova_hack.Forms.Drafts.{Draft}
use fintech_innova_hack.Forms.Application.{Fields, ready}

-- The amounts and the hours, once they are read.
pub record Amounts : Type 0 where
  pub requested : ℕ
  pub cost : ℕ
  pub revenue : ℕ
  pub reserve : ℕ
  pub owner_cap : ℕ
  pub hours : ℤ

unfoldable pub task_body : Fields → Amounts → Json
unfolding trim natural
task_body f a = obj (
    entry (codes "agent_id") (str f.agent_id) (
      entry (codes "title") (str (trim f.title)) (
        entry (codes "description") (str (trim f.description)) (
          entry (codes "category") (str f.category) (
            entry (codes "expected_revenue_minor") (natural a.revenue)
              (entry (codes "expected_cost_minor") (natural a.cost) end))))))

unfoldable pub evidence_body : Draft → Json
unfolding trim
evidence_body d = obj (
    entry (codes "evidence_type") (str d.evidence_type) (
      entry (codes "content_text") (str (trim d.content_text))
        (entry (codes "source") (str (codes "web-form")) end)))

unfoldable pub mandate_body : Amounts → Json
unfolding natural
mandate_body a = obj (entry (codes "reserve_cap_minor") (natural a.reserve) end)

unfoldable pub application_body : Fields → Amounts → Option Json → Json
unfolding natural integer texts entry_some
application_body f a task_id = obj (
    entry (codes "agent_id") (str f.agent_id) (
      entry_some (codes "task_id") task_id (
        entry (codes "requested_minor") (natural a.requested) (
          entry (codes "requested_duration_hours") (integer a.hours) (
            entry (codes "expected_revenue_minor") (natural a.revenue) (
              entry (codes "expected_cost_minor") (natural a.cost) (
                entry (codes "owner_exposure_cap_minor") (natural a.owner_cap)
                  (entry (codes "proposed_vendor_ids") (arr (texts f.vendor_ids)) end))))))))

-- What the steps share: the calls made, `taskId`, the receipts shown and `createdApplicationId`.
pub record Run : Type 0 where
  pub sent : List Call
  pub task_id : Option Json
  pub receipts : List Json
  pub application_id : Option Json

abbrev pub task_call : Fields → Amounts → Call
task_call f a = endpoint_call create_task (some (task_body f a))

abbrev pub application_call : Fields → Amounts → Option Json → Call
application_call f a task_id =
    endpoint_call create_application (some (application_body f a task_id))

-- `x = value.key`, which throws on null.
keep_id : Service → Json → (Option Json → Run) → Run → Option (Option Json) → Outcome × Run
keep_id s v set w none = (rejected (error s.fault), w)
keep_id s v set w (some id) = (resolved v, set id)

pub after_write : Service → Text → (Option Json → Run) → Outcome → Run → Outcome × Run
unfolding keep_id property
after_write s key set (rejected e) w = (rejected e, w)
after_write s key set (resolved v) w = keep_id s v set w (property v key)

task_run : Service → Fields → Amounts → Run → Outcome × Run
unfolding perform after_write task_body
task_run s f a w =
    let (o, sent) = perform s (task_call f a) w.sent in
    after_write s (codes "task_id") (λ id. record w { sent = sent; task_id = id }) o
      (record w { sent = sent })

last_of : Json → List Json → Json
last_of v [] = v
last_of v (w ∷ ws) = last_of w ws

-- One round of the loop: the receipt is kept, and the loop goes on unless the call was rejected.
after_evidence : Outcome → Run → List Json → (List Json → Outcome × Run) → Outcome × Run
after_evidence (rejected e) w stored go_on = (rejected e, w)
after_evidence (resolved v) w stored go_on = go_on (stored ++ v ∷ [])

-- The drafts to come and the receipts so far. These are shown once all are there. Without any draft
-- the last receipt would be undefined; the form is not ready then.
pub evidence_loop : Service → List Draft → List Json → Run → Outcome × Run
unfolding after_evidence last_of evidence_body call_record
evidence_loop s [] stored w = (resolved (last_of null stored), record w { receipts = stored })
evidence_loop s (d ∷ ds) stored w =
    let (o, sent) = call_record s add_evidence w.task_id (some (evidence_body d)) w.sent in
    after_evidence o (record w { sent = sent }) stored
      (λ more. evidence_loop s ds more (record w { sent = sent }))

mandate_run : Service → Amounts → Run → Outcome × Run
unfolding call_record mandate_body
mandate_run s a w =
    let (o, sent) = call_record s create_revenue_mandate w.task_id (some (mandate_body a)) w.sent in
    (o, record w { sent = sent })

application_run : Service → Fields → Amounts → Run → Outcome × Run
unfolding perform after_write application_body
application_run s f a w =
    let (o, sent) = perform s (application_call f a w.task_id) w.sent in
    after_write s (codes "application_id") (λ id. record w { sent = sent; application_id = id }) o
      (record w { sent = sent })

unfoldable pub steps : Service → Fields → Amounts → List (Step Run)
unfolding task_run evidence_loop mandate_run application_run decimal
steps s f a =
    record { label = codes "Create the task"; run = task_run s f a }
    ∷ record {
      label = codes "Store evidence (" ++ decimal (length f.drafts) ++ codes ")";
      run = evidence_loop s f.drafts [];
    }
    ∷ record { label = codes "Lock the revenue mandate"; run = mandate_run s a }
    ∷ record { label = codes "Submit the credit application"; run = application_run s f a }
    ∷ []

abbrev pub fresh : List Call → Run
fresh sent = record {
  sent = sent;
  task_id = some (str []);
  receipts = [];
  application_id = some (str []);
}

-- `application` is the identifier that the form shows as submitted.
pub record Submission : Type 0 where
  pub sent : List Call
  pub receipts : List Json
  pub application : Option (Option Json)

unfoldable pub finish : Report Run → Submission
finish r = record {
  sent = r.world.sent;
  receipts = r.world.receipts;
  application = if r.ok then some r.world.application_id else none;
}

-- The texts as amounts and hours, if all are numbers.
unfoldable pub amounts : Fields → Option Amounts
unfolding rupee_input_to_minor parse_int
amounts f = do
  requested ← rupee_input_to_minor f.requested
  cost ← rupee_input_to_minor f.expected_cost
  revenue ← rupee_input_to_minor f.expected_revenue
  reserve ← rupee_input_to_minor f.reserve_cap
  owner_cap ← rupee_input_to_minor f.owner_cap
  hours ← parse_int f.duration_hours_text
  some (record {
    requested = requested;
    cost = cost;
    revenue = revenue;
    reserve = reserve;
    owner_cap = owner_cap;
    hours = hours;
  })

-- Nothing is sent from a form that is not ready. Hours that are no number are a problem of their own.
submit_with : Service → Fields → List Call → List Json → Option Amounts → Submission
unfolding steps finish run_steps
submit_with s f sent shown none = record { sent = sent; receipts = shown; application = none }
submit_with s f sent shown (some a) = finish (run_steps (steps s f a) (fresh sent))

-- `shown` are the receipts of an earlier attempt.
unfoldable pub submit : Service → Fields → List Call → List Json → Submission
unfolding ready submit_with amounts
submit s f sent shown = submit_with s f sent shown (if ready f then amounts f else none)
