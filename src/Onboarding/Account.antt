-- ===== src/Onboarding/Account.antt =====
-- What the report of `runSteps` says of the writes that were made.
use mathlib.Core.List.{append_assoc, append-nil}
use fintech_innova_hack.Prelude.{◌≡◌, refl, ◌⊎◌, inl, inr, true, false, List, [], ◌∷◌, ◌++◌, sym}
use fintech_innova_hack.Json.{Json}
use fintech_innova_hack.Onboarding.{
  Thrown, Outcome, resolved, rejected, Step, StepState, Report, done_state, failed_state, frame,
  running_state, conclude, loop, run_steps,
}

module _ {W : Type 0} where
  -- The steps ran to the end from the first world to the last, and resolved to these values.
  pub data Runs : List (Step W) → W → List Json → W → Type 0 where
    idle : {w : W} → Runs [] w [] w
    step :
        {s : Step W} {v : Json} {w w' w'' : W} {rest : List (Step W)} {vs : List Json}
        → s.run w ≡ (resolved v, w')
        → Runs rest w' vs w''
        → Runs (s ∷ rest) w (v ∷ vs) w''

  abbrev pub done_states : List (Step W) → List Json → List StepState
  done_states (s ∷ ss) (v ∷ vs) = done_state s v ∷ done_states ss vs
  done_states _ _ = []

  -- All steps ran, or those before one that was rejected, which was the last to run.
  pub record Completed (steps : List (Step W)) (w : W) (r : Report W) (results : List Json)
      : Type 0 where
    pub values : List Json
    pub ran : Runs steps w values r.world
    pub told : r.results ≡ results ++ values

  pub record Stopped (steps : List (Step W)) (w : W) (r : Report W) (results : List Json)
      (past : List StepState) : Type 0 where
    pub before : List (Step W)
    pub culprit : Step W
    pub after : List (Step W)
    pub split : steps ≡ before ++ culprit ∷ after
    pub values : List Json
    pub reached : W
    pub ran : Runs before w values reached
    pub thrown : Thrown
    pub rejection : culprit.run reached ≡ (rejected thrown, r.world)
    pub told : r.results ≡ results ++ values
    pub earlier : List (List StepState)
    pub shown :
        r.frames
        ≡ earlier
          ++ frame (past ++ done_states before values) (failed_state culprit thrown) after ∷ []

  abbrev pub IsTrue : List (Step W) → W → Report W → List Json → List StepState → Type 0
  IsTrue steps w r results past =
      ((r.ok ≡ true) × Completed steps w r results)
      ⊎ ((r.ok ≡ false) × Stopped steps w r results past)

  extend :
      (s : Step W) (rest : List (Step W)) (w w' : W) (v : Json) (r : Report W) (results : List Json)
      (past : List StepState)
      → s.run w ≡ (resolved v, w')
      → IsTrue rest w' r (results ++ v ∷ []) (past ++ done_state s v ∷ [])
      → IsTrue (s ∷ rest) w r results past
  extend s rest w w' v r results past e (inl (k, c)) = inl (
    k,
    record {
      values = v ∷ c.values;
      ran = step e c.ran;
      told = rw c.told (append_assoc results (v ∷ []) c.values);
    },
  )
  extend s rest w w' v r results past e (inr (k, c)) = inr (
    k,
    record {
      before = s ∷ c.before;
      culprit = c.culprit;
      after = c.after;
      split = rw c.split;
      values = v ∷ c.values;
      reached = c.reached;
      ran = step e c.ran;
      thrown = c.thrown;
      rejection = c.rejection;
      told = rw c.told (append_assoc results (v ∷ []) c.values);
      earlier = c.earlier;
      shown = rw (c.shown, append_assoc past (done_state s v ∷ []) (done_states c.before c.values));
    },
  )

  conclude-IsTrue :
      (s : Step W) (rest : List (Step W)) (past : List StepState) (results : List Json)
      (frames : List (List StepState)) (w : W) (o : Outcome × W)
      → s.run w ≡ o
      → ((past : List StepState) (results : List Json) (frames : List (List StepState)) (w : W)
          → IsTrue rest w (loop rest past results frames w) results past)
      → IsTrue (s ∷ rest) w (conclude s rest past results frames o (loop rest)) results past
  unfolding conclude
  conclude-IsTrue s rest past results frames w (resolved v, w') e ih =
      extend s rest w w' v _ results past e (
        ih (past ++ done_state s v ∷ []) (results ++ v ∷ [])
          (frames ++ frame past (done_state s v) rest ∷ []) w')
  conclude-IsTrue s rest past results frames w (rejected t, w') e ih = inr (
    refl,
    record {
      before = [];
      culprit = s;
      after = rest;
      split = refl;
      values = [];
      reached = w;
      ran = idle;
      thrown = t;
      rejection = e;
      told = sym (append-nil results);
      earlier = frames;
      shown = rw (append-nil past);
    },
  )

  loop-IsTrue :
      (steps : List (Step W)) (past : List StepState) (results : List Json)
      (frames : List (List StepState)) (w : W)
      → IsTrue steps w (loop steps past results frames w) results past
  unfolding loop
  loop-IsTrue [] past results frames w =
      inl (refl, record { values = []; ran = idle; told = sym (append-nil results) })
  loop-IsTrue (s ∷ rest) past results frames w =
      conclude-IsTrue s rest past results (frames ++ frame past (running_state s) rest ∷ []) w
        (s.run w) refl (loop-IsTrue rest)

  -- The report is true to what was done. If it says `ok`, every step ran and resolved, in order, to
  -- the results. If not, the results are those of the steps before one that was rejected; that one
  -- was the last to touch the world; and the last list of states that was shown has the steps before
  -- it done, with what `describe` finds in their results, itself failed, with its message, and every
  -- step after it pending.
  pub run_steps-IsTrue : (steps : List (Step W)) (w : W) → IsTrue steps w (run_steps steps w) [] []
  unfolding run_steps
  run_steps-IsTrue steps w = loop-IsTrue steps [] [] [] w
