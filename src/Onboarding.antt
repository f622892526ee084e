-- ===== src/Onboarding.antt =====
-- frontend/lib/onboarding.ts: the runner of the onboarding forms' writes.
pub mod Vocabulary
pub mod Account
pub mod Frames
mod Examples
use fintech_innova_hack.Prelude.{
  ℕ, Bool, true, false, Option, none, some, List, [], ◌∷◌, ◌++◌, map, if◌then◌else◌,
}
use fintech_innova_hack.Prelude.Text.{Text, codes}
use fintech_innova_hack.Json.{Json, Entries, str, obj, prop}

-- What a promise rejects with: an `Error` with its message, or another value.
pub data Thrown : Type 0 where
  error : Text → Thrown
  other : Thrown

pub data Outcome : Type 0 where
  resolved : Json → Outcome
  rejected : Thrown → Outcome

-- A step acts on a world `W`, which holds the rows that the writes create.
pub record Step (W : Type 0) : Type 0 where
  pub label : Text
  pub run : W → Outcome × W

pub data Status : Type 0 where
  pending running done failed : Status

pub record StepState : Type 0 where
  pub label : Text
  pub status : Status
  pub detail : Option Text
  pub error : Option Text

-- `frames` are the lists that `onProgress` was called with, in order.
pub record Report (W : Type 0) : Type 0 where
  pub ok : Bool
  pub results : List Json
  pub frames : List (List StepState)
  pub world : W

id_keys : List Text
id_keys =
    codes "agent_id"
    ∷ codes "passport_id"
    ∷ codes "task_id"
    ∷ codes "evidence_id"
    ∷ codes "mandate_id"
    ∷ codes "application_id"
    ∷ codes "vault_id"
    ∷ codes "repayment_id"
    ∷ []

-- A text, where the property is one; otherwise what the later keys give.
text_else : Option Json → Option Text → Option Text
text_else (some (str t)) rest = some t
text_else _ rest = rest

first_text : List Text → Entries → Option Text
unfolding text_else
first_text [] es = none
first_text (k ∷ ks) es = text_else (prop es k) (first_text ks es)

-- No other value than an object with entries has a property of these names.
unfoldable pub describe : Json → Option Text
unfolding first_text id_keys
describe (obj es) = first_text id_keys es
describe _ = none

unfoldable pub message : Thrown → Text
message (error m) = m
message other = codes "That step did not complete."

abbrev Next : Type 0 → Type 0
Next W = List StepState → List Json → List (List StepState) → W → Report W

module _ {W : Type 0} where
  abbrev pub pending_state : Step W → StepState
  pending_state s = record { label = s.label; status = pending; detail = none; error = none }

  abbrev pub running_state : Step W → StepState
  running_state s = record { label = s.label; status = running; detail = none; error = none }

  abbrev pub done_state : Step W → Json → StepState
  done_state s v = record { label = s.label; status = done; detail = describe v; error = none }

  abbrev pub failed_state : Step W → Thrown → StepState
  failed_state s e = record {
    label = s.label;
    status = failed;
    detail = none;
    error = some (message e);
  }

  -- All states, where `before` are those of the earlier steps.
  abbrev pub frame : List StepState → StepState → List (Step W) → List StepState
  frame before now rest = before ++ now ∷ map pending_state rest

  -- The end of one round: the step's outcome is shown, and the loop goes on or returns.
  conclude :
      Step W
      → List (Step W)
      → List StepState
      → List Json
      → List (List StepState)
      → Outcome × W
      → Next W
      → Report W
  conclude s rest before results frames (resolved v, w) go_on =
      go_on (before ++ done_state s v ∷ []) (results ++ v ∷ [])
        (frames ++ frame before (done_state s v) rest ∷ []) w
  conclude s rest before results frames (rejected e, w) go_on = record {
    ok = false;
    results = results;
    frames = frames ++ frame before (failed_state s e) rest ∷ [];
    world = w;
  }

  -- The loop: the steps to come, the states of those before, and what has been gathered.
  loop : List (Step W) → Next W
  loop [] before results frames w = record {
    ok = true;
    results = results;
    frames = frames;
    world = w;
  }
  loop (s ∷ rest) before results frames w =
      conclude s rest before results (frames ++ frame before (running_state s) rest ∷ []) (s.run w)
        (loop rest)

  unfoldable pub run_steps : List (Step W) → W → Report W
  unfolding loop conclude describe message
  run_steps steps w = loop steps [] [] [] w
