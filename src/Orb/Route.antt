-- ===== src/Orb/Route.antt =====
-- frontend/app/api/orb/route.ts: the handler of a question to the page assistant.
pub mod Sorting
pub mod Answered
use fintech_innova_hack.Prelude.{
  ℕ, ◌-◌, Bool, true, false, not, ◌&&◌, ◌||◌, Option, none, some, List, [], ◌∷◌, ◌++◌, keep, find,
  ltb, leb, length, ◌==◌, if◌then◌else◌,
}
use mathlib.Core.List.{reverse}
use fintech_innova_hack.Prelude.Text.{Text, codes, text_eq, trim}
use fintech_innova_hack.Json.{
  Json, Number, null, bool, num, str, arr, obj, nil, cons, end, entry, prop,
}
use fintech_innova_hack.Server.Http.{Call, Reply, json}
use fintech_innova_hack.Orb.Prompt.{build_prompt}
use fintech_innova_hack.Orb.Answers.{Canned, canned, fact_fallback}

abbrev pub max_message_chars : ℕ
max_message_chars = 600

pub data Source : Type 0 where
  canned_reply model_reply facts_reply : Source

pub record Answer : Type 0 where
  pub text : Text
  pub source : Source
  pub status : ℕ
  pub cache_control : Text

unfoldable pub reply : Text → Source → ℕ → Answer
reply text source status = record {
  text = text;
  source = source;
  status = status;
  cache_control = codes "no-store, private";
}

-- The environment, the model's server and the parser of its replies. `fetch` is none where it
-- rejects: the server cannot be reached, or the time of 25 seconds is over.
pub record Platform : Type 0 where
  pub orb_model : Option Text
  pub ollama_url : Option Text
  pub fetch : Call → Option Reply
  pub parse_json : Text → Option Json

value_or : Option Text → Text → Text
value_or none other = other
value_or (some t) other = t

unfoldable pub model_name : Platform → Text
unfolding value_or
model_name p = value_or p.orb_model (codes "gemma3:4b")

drop_slashes : Text → Text
drop_slashes [] = []
drop_slashes (c ∷ s) = if c == b'/' then drop_slashes s else c ∷ s

-- `replace(/\/+$/, "")`
strip_slashes : Text → Text
unfolding drop_slashes
strip_slashes url = reverse (drop_slashes (reverse url))

is_blank : Text → Bool
unfolding trim text_eq
is_blank text = text_eq (trim text) []

unfoldable pub base_of : Option Text → Option Text
unfolding strip_slashes is_blank
base_of none = none
base_of (some raw) = if is_blank raw then none else some (strip_slashes raw)

whole : ℕ → Json
whole n = num (record { negative = false; mantissa = n; scale = 0 })

chat_message : Text → Text → Json
chat_message role content =
    obj (entry (codes "role") (str role) (entry (codes "content") (str content) end))

unfoldable pub chat_body : Platform → Text → Json
unfolding model_name chat_message build_prompt whole
chat_body p message = obj (
    entry (codes "model") (str (model_name p)) (
      entry (codes "stream") (bool false) (
        entry (codes "keep_alive") (str (codes "30m")) (
          entry (codes "messages")
            (arr (
              cons (chat_message (codes "system") (build_prompt message))
                (cons (chat_message (codes "user") message) nil)))
            (entry (codes "options")
              (obj (
                entry (codes "temperature")
                  (num (record { negative = false; mantissa = 3; scale = 1 }))
                  (entry (codes "num_predict") (whole 140)
                    (entry (codes "num_ctx") (whole 4096) end))))
              end)))))

unfoldable pub chat_call : Platform → Text → Text → Call
unfolding chat_body
chat_call p base message = record {
  method = codes "POST";
  url = base ++ codes "/api/chat";
  headers = (codes "Content-Type", codes "application/json") ∷ [];
  body = some (json (chat_body p message));
}

-- A property, where the value is an object that has it. What the source does with null, where reading
-- the property throws, is what it does with an object without it.
unfoldable pub member : Text → Option Json → Option Json
member key (some (obj es)) = prop es key
member key _ = none

-- The characters of Markdown's emphasis: `[*_`#]`
pub is_emphasis : ℕ → Bool
is_emphasis c = c == b'*' || c == b'_' || c == 0x60 || c == b'#'

not_blank : Text → Option Text
not_blank [] = none
not_blank (c ∷ s) = some (c ∷ s)

unfoldable pub clean : Option Json → Option Text
unfolding not_blank is_emphasis trim
clean (some (str content)) = not_blank (trim (keep (λ c. not (is_emphasis c)) content))
clean _ = none

-- `ok` is a status from 200 to 299.
unfoldable pub read_reply : Platform → Option Reply → Option Text
unfolding clean member
read_reply p none = none
read_reply p (some r) =
    if leb 200 r.status && ltb r.status 300
    then clean (member (codes "content") (member (codes "message") (p.parse_json r.body)))
    else none

ask_at : Platform → Text → Option Text → Option Text × List Call
unfolding chat_call read_reply
ask_at p message none = (none, [])
ask_at p message (some base) =
    let call = chat_call p base message in (read_reply p (p.fetch call), call ∷ [])

-- The model's answer, and the call that is made for it.
unfoldable pub ask_model : Platform → Text → Option Text × List Call
unfolding ask_at base_of
ask_model p message = ask_at p message (base_of p.ollama_url)

abbrev pub unread : Text
unread = codes "I could not read that. Try typing it again?"

abbrev pub unasked : Text
unasked = codes "Ask me something about this page and I'll do my best."

abbrev pub overlong : Text
overlong = codes "That's a bit long for me. Could you ask it in a sentence or two?"

abbrev pub unknown : Text
unknown =
    codes "I don't know that one — I only answer from what this page states. Try asking about the "
    ++ codes "vault, the repayment order, the agent passport, or the sandbox disclosure."

from_facts : Option Text → Answer
unfolding reply
from_facts none = reply unknown facts_reply 200
from_facts (some t) = reply t facts_reply 200

from_model : Option Text × List Call → Option Text → Answer × List Call
unfolding from_facts reply
from_model (some t, sent) fallback = (reply t model_reply 200, sent)
from_model (none, sent) fallback = (from_facts fallback, sent)

-- The three tiers: a canned reply, the model, the facts.
pub answer_with : Platform → Text → Option Canned → Answer × List Call
unfolding from_model ask_model fact_fallback reply
answer_with p trimmed (some c) = (reply c.reply canned_reply 200, [])
answer_with p trimmed none = from_model (ask_model p trimmed) (fact_fallback trimmed)

asked : Platform → Option Json → Answer × List Call
unfolding is_blank reply answer_with canned trim
asked p (some (str message)) =
    if is_blank message
    then (reply unasked facts_reply 400, [])
    else if ltb max_message_chars (length message)
    then (reply overlong facts_reply 413, [])
    else answer_with p (trim message) (find (λ c. c.match (trim message)) canned)
asked p _ = (reply unasked facts_reply 400, [])

-- `body` is none where `request.json()` rejects. The second component are the calls made.
unfoldable pub post : Platform → Option Json → Answer × List Call
unfolding asked member reply
post p none = (reply unread facts_reply 400, [])
post p (some body) = asked p (member (codes "message") (some body))
