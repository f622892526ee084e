-- ===== src/Forms/Service/Laws.antt =====
-- What an awaited operation leaves, where it resolves and where it does not.
use fintech_innova_hack.Prelude.{
  ◌≡◌, refl, inl, inr, Option, some, List, [], ◌∷◌, ◌++◌, Option-cases,
}
use fintech_innova_hack.Json.{Json}
use fintech_innova_hack.Server.Http.{Call}
use fintech_innova_hack.Client.Records.{Operation, operation_call}
use fintech_innova_hack.Onboarding.{Outcome, resolved}
use fintech_innova_hack.Forms.Service.{Service, perform, call_record, perform_some, as_text}

-- The outcome of a call that is made after these.
abbrev pub answered : Service → List Call → Call → Outcome
answered s sent call = (perform s call sent).0

pub sent-perform :
    (s : Service) (call : Call) (sent : List Call) → (perform s call sent).1 ≡ sent ++ call ∷ []
unfolding perform
sent-perform s call sent = refl

-- An operation on a record that resolves has made its call.
pub call_record_sound :
    (s : Service) (op : Operation) (id body : Option Json) (sent : List Call) (v : Json)
    → (call_record s op id body sent).0 ≡ resolved v
    → (call : Call) × (operation_call op (as_text s id) body ≡ some call)
      × ((call_record s op id body sent).1 ≡ sent ++ call ∷ [])
      × (answered s sent call ≡ resolved v)
unfolding call_record perform_some
call_record_sound s op id body sent v e =
    elim (Option-cases (operation_call op (as_text s id) body)) [
      | inl f ↦ absurd (cc (rw f at e))
      | inr (call, f) ↦ (call, f, rw f (sent-perform s call sent), rw f at e)
    ]
