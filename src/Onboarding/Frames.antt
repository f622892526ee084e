-- ===== src/Onboarding/Frames.antt =====
-- What `runSteps` shows while it runs.
use mathlib.Core.List.{append_assoc}
use fintech_innova_hack.Prelude.{
  ◌≡◌, refl, ◌⊎◌, inl, inr, List, [], ◌∷◌, ◌++◌, map, All, All-append,
}
use fintech_innova_hack.Prelude.Text.{Text}
use fintech_innova_hack.Json.{Json}
use fintech_innova_hack.Onboarding.{
  Outcome, resolved, rejected, Step, pending, done, StepState, Report, pending_state, running_state,
  done_state, failed_state, frame, conclude, loop, run_steps,
}

abbrev IsDone : StepState → Type 0
IsDone x = x.status ≡ done

abbrev IsPending : StepState → Type 0
IsPending x = x.status ≡ pending

-- Some steps are done, then there is one in any state, and those after it are pending.
abbrev pub IsInOrder : List StepState → Type 0
IsInOrder [] = Unit
IsInOrder (x ∷ xs) = (IsDone x × IsInOrder xs) ⊎ All IsPending xs

abbrev pub labels : List StepState → List Text
labels = map (λ x. x.label)

labels-append : (xs ys : List StepState) → labels (xs ++ ys) ≡ labels xs ++ labels ys
labels-append [] ys = refl
labels-append (x ∷ xs) ys = rw (labels-append xs ys)

IsInOrder-frame :
    (before : List StepState) (x : StepState) (rest : List StepState)
    → All IsDone before
    → All IsPending rest
    → IsInOrder (before ++ x ∷ rest)
IsInOrder-frame [] x rest h k = inr k
IsInOrder-frame (y ∷ ys) x rest (p, h) k = inl (p, IsInOrder-frame ys x rest h k)

module _ {W : Type 0} where
  all-IsPending : (ss : List (Step W)) → All IsPending (map pending_state ss)
  all-IsPending [] = tt
  all-IsPending (s ∷ ss) = (refl, all-IsPending ss)

  labels-pending : (ss : List (Step W)) → labels (map pending_state ss) ≡ map (λ s. s.label) ss
  labels-pending [] = refl
  labels-pending (s ∷ ss) = rw (labels-pending ss)

  -- A list of states of all the steps, under their labels, in order.
  abbrev pub Shows : List (Step W) → List StepState → Type 0
  Shows steps f = IsInOrder f × (labels f ≡ map (λ s. s.label) steps)

  Shows-frame :
      (steps : List (Step W)) (before : List StepState) (s : Step W) (x : StepState)
      (rest : List (Step W))
      → All IsDone before
      → labels before ++ s.label ∷ map (λ s. s.label) rest ≡ map (λ s. s.label) steps
      → x.label ≡ s.label
      → Shows steps (frame before x rest)
  Shows-frame steps before s x rest h e l = (
    IsInOrder-frame before x (map pending_state rest) h (all-IsPending rest),
    rw (labels-append before (x ∷ map pending_state rest), labels-pending rest, l) e,
  )

  module _ (steps : List (Step W)) where
    -- What the loop needs of the rounds to come.
    abbrev Good :
        List (Step W) → (List StepState → List Json → List (List StepState) → W → Report W) → Type 0
    Good rest k =
        (before : List StepState) (results : List Json) (frames : List (List StepState)) (w : W)
        → All IsDone before
        → labels before ++ map (λ s. s.label) rest ≡ map (λ s. s.label) steps
        → All (Shows steps) frames
        → All (Shows steps) (k before results frames w).frames

    add_frame :
        (f : List StepState) (frames : List (List StepState))
        → All (Shows steps) frames
        → Shows steps f
        → All (Shows steps) (frames ++ f ∷ [])
    add_frame f frames h p = All-append (Shows steps) frames (f ∷ []) h (p, tt)

    conclude-Shows :
        (s : Step W) (rest : List (Step W)) (before : List StepState) (results : List Json)
        (frames : List (List StepState)) (o : Outcome × W)
        (k : List StepState → List Json → List (List StepState) → W → Report W)
        → Good rest k
        → All IsDone before
        → labels before ++ s.label ∷ map (λ s. s.label) rest ≡ map (λ s. s.label) steps
        → All (Shows steps) frames
        → All (Shows steps) (conclude s rest before results frames o k).frames
    unfolding conclude
    conclude-Shows s rest before results frames (resolved v, w) k good d e h =
        good (before ++ done_state s v ∷ []) (results ++ v ∷ [])
          (frames ++ frame before (done_state s v) rest ∷ []) w
          (All-append IsDone before (done_state s v ∷ []) d (refl, tt))
          (rw
            (
              labels-append before (done_state s v ∷ []),
              append_assoc (labels before) (s.label ∷ []),
            )
            e)
          (add_frame (frame before (done_state s v) rest) frames h
            (Shows-frame steps before s (done_state s v) rest d e refl))
    conclude-Shows s rest before results frames (rejected t, w) k good d e h =
        add_frame (frame before (failed_state s t) rest) frames h
          (Shows-frame steps before s (failed_state s t) rest d e refl)

    loop-Shows : (rest : List (Step W)) → Good rest (loop rest)
    unfolding loop
    loop-Shows [] before results frames w d e h = h
    loop-Shows (s ∷ rest) before results frames w d e h =
        conclude-Shows s rest before results (frames ++ frame before (running_state s) rest ∷ [])
          (s.run w) (loop rest) (loop-Shows rest) d e
          (add_frame (frame before (running_state s) rest) frames h
            (Shows-frame steps before s (running_state s) rest d e refl))

    -- Every list of states that is shown has all the steps under their labels in their order, and in it
    -- some steps are done, the next is in any state, and those after it are pending.
    pub run_steps-Shows : (w : W) → All (Shows steps) (run_steps steps w).frames
    unfolding run_steps
    run_steps-Shows w = loop-Shows steps [] [] [] w tt refl tt
