-- ===== src/Forms/Agent.antt =====
-- frontend/components/onboarding/register-agent.tsx: what the form asks of its fields, and what
-- submitting it does.
pub mod Laws
pub mod Registration
mod Examples
use fintech_innova_hack.Prelude.{
  ℕ, Bool, true, false, not, ◌&&◌, ◌||◌, Option, none, some, List, [], ◌∷◌, ◌++◌, ltb, ◌==◌,
  if◌then◌else◌, length,
}
use fintech_innova_hack.Prelude.Text.{Text, codes, trim}
use fintech_innova_hack.Prelude.Int.{ℤ, pos, negsuc}
use fintech_innova_hack.Json.{
  Json, Elems, Entries, Number, null, bool, num, str, arr, obj, nil, cons, end, entry,
}
use fintech_innova_hack.Format.Rupees.{rupee_input_to_minor}
use fintech_innova_hack.Format.Labels.{no_value, humanise}
use fintech_innova_hack.Server.Http.{Call}
use fintech_innova_hack.Client.Records.{issue_passport, verify_passport}
use fintech_innova_hack.Client.Endpoints.{create_agent}
use fintech_innova_hack.Onboarding.{error, Outcome, resolved, rejected, Step, Report, run_steps}
use fintech_innova_hack.Forms.Service.{
  Service, perform, endpoint_call, call_record, property, natural, integer, texts, parse_int,
}
use fintech_innova_hack.Forms.Checks.{when, or_when, is_none, is_nil, out_of_hours, no_problem}

pub record Fields : Type 0 where
  pub name : Text
  pub provider : Text
  pub model_name : Text
  pub version_hash : Text
  pub purpose : Text
  pub categories : List Text
  pub borrowing_limit : Text
  pub per_transaction : Text
  pub vendor_ids : List Text
  pub ttl_hours : Text

abbrev pub max_ttl_hours : ℕ
max_ttl_hours = 24

-- A payment above the authority, where both are amounts.
unfoldable pub exceeds : Option ℕ → Option ℕ → Bool
exceeds (some per) (some limit) = ltb limit per
exceeds _ _ = false

-- Each field's key, with the sentence under it, if there is one.
unfoldable pub problems : Fields → List (Text × Option Text)
unfolding rupee_input_to_minor trim parse_int out_of_hours exceeds
problems f =
    let borrowing = rupee_input_to_minor f.borrowing_limit in
    let per = rupee_input_to_minor f.per_transaction in
    let amount = codes "Enter an amount in rupees, above zero." in
    (
      codes "name",
      when (ltb (length (trim f.name)) 2)
          (codes "Give the agent a name of at least two characters."),
    )
    ∷ (
      codes "modelName",
      when (is_nil (trim f.model_name)) (codes "Name the model this agent runs on."),
    )
    ∷ (
      codes "versionHash",
      when (is_nil (trim f.version_hash))
          (codes "Record the pinned version. This is what the passport binds to."),
    )
    ∷ (
      codes "purpose",
      when (ltb (length (trim f.purpose)) 4) (codes "Say in one line what this agent is for."),
    )
    ∷ (
      codes "categories",
      when (is_nil f.categories) (codes "Pick at least one permitted category."),
    )
    ∷ (codes "borrowingLimit", when (is_none borrowing) amount)
    ∷ (
      codes "perTransaction",
      or_when (exceeds per borrowing)
          (codes "A single payment cannot exceed the total borrowing authority.")
          (when (is_none per) amount),
    )
    ∷ (
      codes "ttlHours",
      when (out_of_hours max_ttl_hours (parse_int f.ttl_hours)) (codes "Between 1 and 24 hours."),
    )
    ∷ []

unfoldable pub ready : Fields → Bool
unfolding problems
ready f = no_problem (problems f)

-- What the steps share: the calls made, `createdAgentId`, and the verification that is shown.
pub record Run : Type 0 where
  pub sent : List Call
  pub agent_id : Option Json
  pub verification : Option Json

unfoldable pub agent_body : Fields → Json
unfolding trim
agent_body f = obj (
    entry (codes "name") (str (trim f.name)) (
      entry (codes "model_provider") (str f.provider) (
        entry (codes "model_name") (str (trim f.model_name))
          (entry (codes "model_version_hash") (str (trim f.version_hash)) end))))

unfoldable pub passport_body : Fields → ℕ → ℕ → ℤ → Json
unfolding trim natural integer texts
passport_body f borrowing per ttl = obj (
    entry (codes "purpose") (str (trim f.purpose)) (
      entry (codes "permitted_task_categories") (arr (texts f.categories)) (
        entry (codes "max_borrowing_authority_minor") (natural borrowing) (
          entry (codes "max_transaction_value_minor") (natural per) (
            entry (codes "approved_vendor_ids") (arr (texts f.vendor_ids))
              (entry (codes "ttl_hours") (integer ttl) end))))))

keep_agent_id : Service → Json → Run → Option (Option Json) → Outcome × Run
keep_agent_id s v w none = (rejected (error s.fault), w)
keep_agent_id s v w (some id) = (resolved v, record w { agent_id = id })

unfoldable pub after_create : Service → Outcome → Run → Outcome × Run
unfolding keep_agent_id property
after_create s (rejected e) w = (rejected e, w)
after_create s (resolved v) w = keep_agent_id s v w (property v (codes "agent_id"))

-- What JavaScript takes for true.
unfoldable pub truthy : Option Json → Bool
truthy none = false
truthy (some null) = false
truthy (some (bool b)) = b
truthy (some (num n)) = not (n.mantissa == 0)
truthy (some (str [])) = false
truthy (some (str (c ∷ s))) = true
truthy (some (arr vs)) = true
truthy (some (obj es)) = true

-- `humanise`, which throws on a truthy value that is not a text.
human : Json → Option Text
unfolding humanise
human (str t) = some (humanise (some t))
human null = some no_value
human (bool false) = some no_value
human (num n) = if n.mantissa == 0 then some no_value else none
human _ = none

joined_to : Text → Option Text → Option Text
joined_to t none = none
joined_to t (some rest) = some (t ++ codes ", " ++ rest)

join_with : Option Text → Elems → Option Text → Option Text
unfolding joined_to
join_with none vs rest = none
join_with (some t) nil rest = some t
join_with (some t) (cons v vs) rest = joined_to t rest

human_list : Elems → Option Text
unfolding human join_with
human_list nil = some []
human_list (cons v vs) = join_with (human v) vs (human_list vs)

-- `reason_codes.map(humanise).join(", ")`, where it does not throw.
reasons : Option (Option Json) → Option Text
unfolding human_list
reasons (some (some (arr vs))) = human_list vs
reasons _ = none

refused : Service → Option Text → Outcome
refused s none = rejected (error s.fault)
refused s (some t) = rejected (error (codes "The passport did not verify: " ++ t))

judge : Service → Json → Option (Option Json) → Outcome
unfolding truthy refused reasons property
judge s v none = rejected (error s.fault)
judge s v (some valid) =
    if truthy valid then resolved v else refused s (reasons (property v (codes "reason_codes")))

-- The verification is shown before it is judged.
unfoldable pub after_verify : Service → Outcome → Run → Outcome × Run
unfolding judge property
after_verify s (rejected e) w = (rejected e, w)
after_verify s (resolved v) w =
    (judge s v (property v (codes "valid")), record w { verification = some v })

abbrev create_call : Fields → Call
create_call f = endpoint_call create_agent (some (agent_body f))

create_run : Service → Fields → Run → Outcome × Run
unfolding perform after_create
create_run s f w =
    let (o, sent) = perform s (create_call f) w.sent in after_create s o (record w { sent = sent })

issue_run : Service → Json → Run → Outcome × Run
unfolding call_record
issue_run s body w =
    let (o, sent) = call_record s issue_passport w.agent_id (some body) w.sent in
    (o, record w { sent = sent })

verify_run : Service → Run → Outcome × Run
unfolding call_record after_verify
verify_run s w =
    let (o, sent) = call_record s verify_passport w.agent_id none w.sent in
    after_verify s o (record w { sent = sent })

unfoldable pub steps : Service → Fields → ℕ → ℕ → ℤ → List (Step Run)
unfolding create_run issue_run verify_run passport_body
steps s f borrowing per ttl =
    record { label = codes "Register the agent"; run = create_run s f }
    ∷ record {
      label = codes "Issue the agent passport";
      run = issue_run s (passport_body f borrowing per ttl);
    }
    ∷ record {
      label = codes "Re-verify the passport (issuer, audience, window, revocation, scope, replay)";
      run = verify_run s;
    }
    ∷ []

abbrev pub fresh : List Call → Run
fresh sent = record { sent = sent; agent_id = some (str []); verification = none }

-- `registered` is what `onRegistered` is called with; `sent` are the calls made by then.
pub record Submission : Type 0 where
  pub sent : List Call
  pub registered : Option (Option Json)

unfoldable pub finish : Report Run → Submission
finish r = record { sent = r.world.sent; registered = if r.ok then some r.world.agent_id else none }

no_submission : List Call → Submission
no_submission sent = record { sent = sent; registered = none }

-- A text that is no number cannot be reached here: the field would have a problem.
submit_with : Service → Fields → List Call → Option ℕ → Option ℕ → Option ℤ → Submission
unfolding steps finish run_steps no_submission
submit_with s f sent (some borrowing) (some per) (some ttl) =
    finish (run_steps (steps s f borrowing per ttl) (fresh sent))
submit_with s f sent _ _ _ = no_submission sent

unfoldable pub submit : Service → Fields → List Call → Submission
unfolding ready submit_with no_submission rupee_input_to_minor parse_int
submit s f sent =
    if ready f
    then submit_with s f sent (rupee_input_to_minor f.borrowing_limit)
        (rupee_input_to_minor f.per_transaction) (parse_int f.ttl_hours)
    else no_submission sent
