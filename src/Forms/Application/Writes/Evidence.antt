-- ===== src/Forms/Application/Writes/Evidence.antt =====
-- What the steps of an application have done where they resolve.
use mathlib.Core.Path.{subst}
use fintech_innova_hack.Prelude.{
  ◌+◌, ◌≡◌, refl, Option, some, List, [], ◌∷◌, ◌++◌, map, arith, length, append_assoc, append-nil,
  length-append, Option-cases, inl, inr, sym, ap, ◌∙◌,
}
use fintech_innova_hack.Prelude.Text.{Text}
use fintech_innova_hack.Json.{Json}
use fintech_innova_hack.Server.Http.{Call}
use fintech_innova_hack.Client.Records.{operation_call, add_evidence}
use fintech_innova_hack.Onboarding.{Outcome, resolved, rejected}
use fintech_innova_hack.Forms.Service.{Service, as_text, property}
use fintech_innova_hack.Forms.Service.Laws.{call_record_sound}
use fintech_innova_hack.Forms.Drafts.{Draft}
use fintech_innova_hack.Forms.Application.Writes.{
  Run, evidence_body, keep_id, after_write, after_evidence, evidence_loop,
}

pub after_write_sound :
    (s : Service) (key : Text) (set : Option Json → Run) (o : Outcome) (w w' : Run) (v : Json)
    → after_write s key set o w ≡ (resolved v, w')
    → (o ≡ resolved v) × ((id : Option Json) × (property v key ≡ some id) × (w' ≡ set id))
unfolding after_write keep_id
after_write_sound s key set (rejected t) w w' v e = absurd (cc e)
after_write_sound s key set (resolved u) w w' v e = elim (Option-cases (property u key)) [
  | inl f ↦ absurd (cc (rw f at e))
  | inr (id, f) ↦
      let told = rw f at e in
      let same : u ≡ v = cc (ap (λ (p : Outcome × Run). p.0) told) in
      (
        ap (λ (j : Json). resolved j) same,
        (
          id,
          subst (λ (j : Json). property j key ≡ some id) same f,
          sym (ap (λ (p : Outcome × Run). p.1) told),
        ),
      )
]

after_evidence_sound :
    (o : Outcome) (w w' : Run) (stored : List Json) (go_on : List Json → Outcome × Run) (v : Json)
    → after_evidence o w stored go_on ≡ (resolved v, w')
    → (u : Json) × (o ≡ resolved u) × (go_on (stored ++ u ∷ []) ≡ (resolved v, w'))
unfolding after_evidence
after_evidence_sound (rejected t) w w' stored go_on v e = absurd (cc e)
after_evidence_sound (resolved u) w w' stored go_on v e = (u, refl, e)

-- The call, if there is one, that stores a draft for a task.
abbrev pub evidence_call : Service → Option Json → Draft → Option Call
evidence_call s id d = operation_call add_evidence (as_text s id) (some (evidence_body d))

-- The loop has made one call for each draft, in order, and kept a receipt for each.
pub record IsStored (s : Service) (ds : List Draft) (stored : List Json) (w w' : Run) : Type 0 where
  pub calls : List Call
  pub each : map (λ call. some call) calls ≡ map (evidence_call s w.task_id) ds
  pub receipts : List Json
  pub after : w' ≡ record w { sent = w.sent ++ calls; receipts = receipts }
  pub count : length receipts ≡ length stored + length ds

list_cons {ℓ} : {A : Type ℓ} {x y : A} {xs ys : List A} → y ≡ x → xs ≡ ys → List.◌∷◌ x xs ≡ y ∷ ys
list_cons e f = cc

pub evidence_loop_sound :
    (s : Service) (ds : List Draft) (stored : List Json) (w w' : Run) (v : Json)
    → evidence_loop s ds stored w ≡ (resolved v, w')
    → IsStored s ds stored w w'
unfolding evidence_loop
evidence_loop_sound s [] stored w w' v e = record {
  calls = [];
  each = refl;
  receipts = stored;
  after =
      sym (ap (λ (p : Outcome × Run). p.1) e)
      ∙ ap (λ (xs : List Call). record w { sent = xs; receipts = stored })
          (sym (append-nil w.sent));
  count = omega arith;
}
evidence_loop_sound s (d ∷ ds) stored w w' v e =
    let (u, kept, rest) = after_evidence_sound _ _ w' stored _ v e in
    let (call, made, grown, _) =
      call_record_sound s add_evidence w.task_id (some (evidence_body d)) w.sent u kept in
    let next = evidence_loop_sound s ds (stored ++ u ∷ []) _ w' v rest in
    record {
      calls = call ∷ next.calls;
      each = list_cons made next.each;
      receipts = next.receipts;
      after =
          next.after
          ∙ ap (λ (xs : List Call). record w { sent = xs ++ next.calls; receipts = next.receipts })
              grown
          ∙ ap (λ (xs : List Call). record w { sent = xs; receipts = next.receipts })
              (append_assoc w.sent (call ∷ []) next.calls);
      count = omega (arith, next.count, length-append stored (u ∷ []));
    }
