-- ===== src/Orb/Chat/Conversation.antt =====
-- What the panel's questions are, and that the handler answers them.
use mathlib.Core.List.{Memᴰ}
use mathlib.Core.Path.{subst}
use fintech_innova_hack.Prelude.{
  ◌≤◌, ◌≡◌, refl, ◌≢◌, inl, inr, Bool, true, false, ◌||◌, Option, none, some, List, [], ◌∷◌, ◌++◌,
  length, All, All-append, arith, Bool-cases,
}
use fintech_innova_hack.Prelude.Members.{All_elim}
use fintech_innova_hack.Prelude.Text.{Text, text_eq, trim}
use fintech_innova_hack.Prelude.Text.Laws.{text_eq_iff}
use fintech_innova_hack.Prelude.Text.Trim.{length-trim, trim-trim_full}
use fintech_innova_hack.Json.{Json, null, bool, num, str, arr, obj}
use fintech_innova_hack.Orb.Route.{Platform, member, post}
use fintech_innova_hack.Orb.Route.Sorting.{IsAsked}
use fintech_innova_hack.Orb.Route.Answered.{post-IsRefused}
use fintech_innova_hack.Orb.Chat.{
  user, orb, Message, Chat, opening, initial, question_of, send, request_body, settle, message_of,
  Event, open_panel, close_panel, type_draft, send_draft, send_suggestion, receive_reply, Reach,
  begin, next, suggestions,
}

-- A question that the panel shows: a text that is not blank, of 600 units at most.
abbrev IsQuestion : Message → Type 0
IsQuestion m = (q : Text) × (m.text ≡ str q) × (trim q ≢ []) × (length q ≤ 600)

-- The messages are the opening, then questions and answers in turn; the last is a question exactly if
-- its answer is awaited.
pub data Turns : Bool → List Message → Type 0 where
  started : Turns false (opening ∷ [])
  asked : {ms : List Message} → Turns false ms → (q : Text) → Turns true (ms ++ question_of q ∷ [])
  answered :
      {ms : List Message}
      → Turns true ms
      → (m : Message) → m.role ≡ orb
      → Turns false (ms ++ m ∷ [])

record IsFit (c : Chat) : Type 0 where
  pub short : length c.draft ≤ 600
  pub questions : All (λ m. m.role ≡ user → IsQuestion m) c.messages
  pub turns : Turns c.pending c.messages

initial-IsFit : IsFit initial
initial-IsFit = record {
  short = omega arith;
  questions = ((λ e. absurd (cc e)), tt);
  turns = started;
}

either_false : (a b : Bool) → (a || b) ≡ false → (a ≡ false) × (b ≡ false)
either_false true b e = absurd (cc e)
either_false false b e = (refl, e)

send-IsFit : (text : Text) (c : Chat) → length text ≤ 600 → IsFit c → IsFit (send text c)
unfolding send
send-IsFit text c short h = elim (Bool-cases (text_eq (trim text) [] || c.pending)) [
  | inl e ↦ rw e h
  | inr e ↦
      let (blank, idle) = either_false (text_eq (trim text) []) c.pending e in
      let full : trim text ≢ [] = λ k. cc (blank, (text_eq_iff (trim text) []).1 k) in
      rw e (record {
        short = omega arith;
        questions =
            All-append (λ m. m.role ≡ user → IsQuestion m) c.messages (question_of (trim text) ∷ [])
              h.questions
              (
                (λ u. (
                  trim text,
                  refl,
                  trim-trim_full text full,
                  omega (arith, short, length-trim text),
                )),
                tt,
              );
        turns = asked (subst (λ b. Turns b c.messages) idle h.turns) (trim text);
      })
]

replied_role : (o : Option Json) → (message_of o).role ≡ orb
unfolding message_of
replied_role none = refl
replied_role (some null) = refl
replied_role (some (bool b)) = refl
replied_role (some (num n)) = refl
replied_role (some (str s)) = refl
replied_role (some (arr vs)) = refl
replied_role (some (obj es)) = refl

settle-IsFit : (o : Option Json) (c : Chat) → c.pending ≡ true → IsFit c → IsFit (settle o c)
unfolding settle
settle-IsFit o c p h = record {
  short = h.short;
  questions =
      All-append (λ m. m.role ≡ user → IsQuestion m) c.messages (message_of o ∷ []) h.questions
        ((λ u. absurd (cc (u, replied_role o))), tt);
  turns = answered (subst (λ b. Turns b c.messages) p h.turns) (message_of o) (replied_role o);
}

suggestions_short : All (λ s. length s ≤ 600) suggestions
suggestions_short = (omega arith, (omega arith, (omega arith, tt)))

Event-IsFit : {c d : Chat} → Event c d → IsFit c → IsFit d
Event-IsFit open_panel h = record { short = h.short; questions = h.questions; turns = h.turns }
Event-IsFit close_panel h = record { short = h.short; questions = h.questions; turns = h.turns }
Event-IsFit (type_draft text short) h = record {
  short = short;
  questions = h.questions;
  turns = h.turns;
}
Event-IsFit {c = c} send_draft h = send-IsFit c.draft c h.short h
Event-IsFit {c = c} (send_suggestion text m one idle) h =
    send-IsFit text c (All_elim (λ s. length s ≤ 600) suggestions suggestions_short text m) h
Event-IsFit {c = c} (receive_reply o p) h = settle-IsFit o c p h

Reach-IsFit : {c : Chat} → Reach c → IsFit c
Reach-IsFit begin = initial-IsFit
Reach-IsFit (next r e) = Event-IsFit e (Reach-IsFit r)

-- However the panel is used, its messages are the opening, then questions and answers in turn, the last
-- a question exactly if its answer is awaited.
pub Reach-Turns : {c : Chat} → Reach c → Turns c.pending c.messages
Reach-Turns r = (Reach-IsFit r).turns

-- Every question that the panel has shown, and so sent, is one that the handler answers with the status
-- 200, whatever its model's server does.
pub Reach-answered :
    (p : Platform) {c : Chat} (m : Message)
    → Reach c
    → Memᴰ m c.messages
    → m.role ≡ user
    → (q : Text) × (m.text ≡ str q) × ((post p (some (request_body q))).0.status ≡ 200)
unfolding member text_eq
Reach-answered p {c = c} m r here u =
    let (q, e, full, short) =
      All_elim (λ m. m.role ≡ user → IsQuestion m) c.messages (Reach-IsFit r).questions m here u in
    (q, e, status q (record { read = refl; filled = full; short = short }))
  where
    status :
        (q : Text)
        → IsAsked (some (request_body q)) q
        → (post p (some (request_body q))).0.status ≡ 200
    status q k = elim (post-IsRefused p (some (request_body q))) [
      | inl (_, _, e) ↦ e
      | inr (never, _) ↦ absurd (never (q, k))
    ]
