-- ===== src/Pages/Audit.antt =====
-- frontend/app/(product)/audit/page.tsx: the link that each event of the chain is drawn with, newest
-- first, and the label of an event.
use fintech_innova_hack.Prelude.{
  ℕ, suc, ◌≡◌, refl, sym, ap, ◌∙◌, ◌≢◌, ◌↔◌, Bool, false, Option, none, some, List, [], ◌∷◌, ◌++◌,
  append_assoc, All, length, get_elem?, Bool-cases, inl, inr,
}
use fintech_innova_hack.Prelude.Text.{Text, text_eq}
use fintech_innova_hack.Prelude.Text.Laws.{text_eq_iff}
use fintech_innova_hack.Types.Events.{AuditEvent}

-- No link is drawn below the last event; otherwise it says whether the hash is the next event's.
link : AuditEvent → Option AuditEvent → Option Bool
unfolding text_eq
link event none = none
link event (some next) = some (text_eq event.prev_hash next.event_hash)

links_from : ℕ → List AuditEvent → List AuditEvent → List (Option Bool)
unfolding link
links_from i events [] = []
links_from i events (event ∷ rest) =
    link event (get_elem? events (suc i)) ∷ links_from (suc i) events rest

-- `events.data.map((event, index) => …)`, which looks the next event up by its index.
unfoldable pub links : List AuditEvent → List (Option Bool)
unfolding links_from
links events = links_from 0 events events

-- Each event commits to the hash of the one before it, which stands below it.
abbrev pub IsChain : List AuditEvent → Type 0
IsChain [] = Unit
IsChain (a ∷ []) = Unit
IsChain (a ∷ b ∷ rest) = (a.prev_hash ≡ b.event_hash) × IsChain (b ∷ rest)

abbrev pub NoMismatch : List (Option Bool) → Type 0
NoMismatch = All (λ l. l ≢ some false)

head_of : List AuditEvent → Option AuditEvent
head_of [] = none
head_of (e ∷ rest) = some e

adjacent : List AuditEvent → List (Option Bool)
unfolding head_of
adjacent [] = []
adjacent (e ∷ rest) = link e (head_of rest) ∷ adjacent rest

get_elem?-append :
    (before : List AuditEvent) (e : AuditEvent) (rest : List AuditEvent)
    → get_elem? (before ++ e ∷ rest) (suc (length before)) ≡ head_of rest
unfolding head_of
get_elem?-append [] e [] = refl
get_elem?-append [] e (f ∷ rest) = refl
get_elem?-append (b ∷ before) e rest = get_elem?-append before e rest

length-snoc :
    (before : List AuditEvent) (e : AuditEvent) → length (before ++ e ∷ []) ≡ suc (length before)
length-snoc [] e = refl
length-snoc (b ∷ before) e = ap (λ n. suc n) (length-snoc before e)

links_from-adjacent :
    (before rest : List AuditEvent)
    → links_from (length before) (before ++ rest) rest ≡ adjacent rest
unfolding links_from adjacent
links_from-adjacent before [] = refl
links_from-adjacent before (e ∷ rest) = rw (get_elem?-append before e rest) (
    ap (λ ls. link e (head_of rest) ∷ ls)
      (ap (λ n. links_from n (before ++ e ∷ rest) rest) (sym (length-snoc before e))
        ∙ ap (λ es. links_from (length (before ++ e ∷ [])) es rest)
            (sym (append_assoc before (e ∷ []) rest))
        ∙ links_from-adjacent (before ++ e ∷ []) rest))

matched : (a b : Text) → (some (text_eq a b) ≢ some false) ↔ (a ≡ b)
matched a b = (
  λ h. elim (Bool-cases (text_eq a b)) [
    | inl e ↦ (text_eq_iff a b).0 e
    | inr e ↦ absurd (h (ap some e))
  ],
  λ e h. let t = (text_eq_iff a b).1 e in cc (t, h),
)

adjacent-IsChain : (events : List AuditEvent) → NoMismatch (adjacent events) ↔ IsChain events
unfolding adjacent link head_of
adjacent-IsChain [] = (λ h. tt, λ h. tt)
adjacent-IsChain (a ∷ []) = (λ h. tt, λ h. (λ e. cc e, tt))
adjacent-IsChain (a ∷ b ∷ rest) =
    let (to, from) = adjacent-IsChain (b ∷ rest) in
    let (eq, ok) = matched a.prev_hash b.event_hash in
    (λ (l, h). (eq l, to h), λ (e, c). (ok e, from c))

-- No link is drawn as a mismatch exactly if each event's previous hash is the hash of the event below
-- it.
pub links-IsChain : (events : List AuditEvent) → NoMismatch (links events) ↔ IsChain events
unfolding links
links-IsChain events = rw (links_from-adjacent [] events) (adjacent-IsChain events)
