-- ===== src/Orb/Chat.antt =====
-- frontend/components/orb.tsx: the panel of the page assistant. A question is sent to the handler of
-- Orb/Route; while its reply is awaited, the person may go on with the panel.
pub mod Conversation
use mathlib.Core.List.{Memᴰ}
use fintech_innova_hack.Prelude.{
  ℕ, ◌≤◌, ◌≡◌, Bool, true, false, ◌||◌, Option, none, some, List, [], ◌∷◌, ◌++◌, if◌then◌else◌,
  length,
}
use fintech_innova_hack.Prelude.Text.{Text, codes, text_eq, trim}
use fintech_innova_hack.Json.{Json, null, bool, num, str, arr, obj, end, entry, prop}
use fintech_innova_hack.Orb.Route.{Source, canned_reply, model_reply, facts_reply, Answer}

pub data Role : Type 0 where
  user orb : Role

-- `text` and `source` are what the reply holds under `reply` and `source`; neither is checked.
pub record Message : Type 0 where
  pub role : Role
  pub text : Json
  pub source : Option Json

abbrev pub opening : Message
opening = record {
  role = orb;
  text = str (
      codes "Hi — I'm the CredenceAI orb. Ask me about anything on this page: the vaults, the "
      ++ codes "repayment order, the agent passport, or what's real and what's sandbox.");
  source = some (str (codes "canned"));
}

pub record Chat : Type 0 where
  pub is_open : Bool
  pub messages : List Message
  pub draft : Text
  pub pending : Bool

abbrev pub initial : Chat
initial = record { is_open = false; messages = opening ∷ []; draft = []; pending = false }

abbrev pub question_of : Text → Message
question_of text = record { role = user; text = str text; source = none }

-- The part of `send` before the request: a blank question is dropped, and so is one while another is
-- awaited.
unfoldable pub send : Text → Chat → Chat
unfolding trim text_eq
send text c = if text_eq (trim text) [] || c.pending then c else record c {
  messages = c.messages ++ question_of (trim text) ∷ [];
  draft = [];
  pending = true;
}

-- The body of the request, for the trimmed question.
abbrev pub request_body : Text → Json
request_body question = obj (entry (codes "message") (str question) end)

abbrev unreachable : Message
unreachable = record {
  role = orb;
  text = str (
      codes "I couldn't reach my own service just then. The page itself is unaffected — try me "
      ++ codes "again in a moment.");
  source = some (str (codes "facts"));
}

-- `value ?? other`
or_else : Option Json → Json → Json
or_else none other = other
or_else (some null) other = other
or_else (some v) other = v

entry_of : Json → Text → Option Json
entry_of (obj es) key = prop es key
entry_of _ key = none

replied : Json → Message
unfolding or_else entry_of
replied reply = record {
  role = orb;
  text =
      or_else (entry_of reply (codes "reply"))
        (str (codes "Something went wrong on my end. Try again?"));
  source = some (or_else (entry_of reply (codes "source")) (str (codes "facts")));
}

-- The message of a reply: `none` where the request or the parser rejects. Null has no properties.
unfoldable pub message_of : Option Json → Message
unfolding replied
message_of none = unreachable
message_of (some null) = unreachable
message_of (some reply) = replied reply

-- The part of `send` after the request. The status of the reply is not looked at.
unfoldable pub settle : Option Json → Chat → Chat
unfolding message_of
settle reply c = record c { messages = c.messages ++ message_of reply ∷ []; pending = false }

abbrev pub suggestions : List Text
suggestions =
    codes "What is CredenceAI?"
    ∷ codes "How does repayment work?"
    ∷ codes "Is this real money?"
    ∷ []

-- What happens to the panel. The field takes 600 units at most; the suggestions are there until the
-- first question; a reply arrives only while one is awaited.
pub data Event : Chat → Chat → Type 0 where
  open_panel : {c : Chat} → Event c (record c { is_open = true })
  close_panel : {c : Chat} → Event c (record c { is_open = false })
  type_draft : {c : Chat} (text : Text) → length text ≤ 600 → Event c (record c { draft = text })
  send_draft : {c : Chat} → Event c (send c.draft c)
  send_suggestion :
      {c : Chat} (text : Text)
      → Memᴰ text suggestions
      → length c.messages ≡ 1
      → c.pending ≡ false
      → Event c (send text c)
  receive_reply : {c : Chat} (reply : Option Json) → c.pending ≡ true → Event c (settle reply c)

pub data Reach : Chat → Type 0 where
  begin : Reach initial
  next : {c d : Chat} → Reach c → Event c d → Reach d

source_text : Source → Text
source_text canned_reply = codes "canned"
source_text model_reply = codes "model"
source_text facts_reply = codes "facts"

-- What the handler's answer is parsed to.
unfoldable pub answer_json : Answer → Json
unfolding source_text
answer_json a =
    obj
      (entry (codes "reply") (str a.text) (entry (codes "source") (str (source_text a.source)) end))

-- The label under a message, `none` where there is no such source.
unfoldable pub source_label : Option Json → Option Text
unfolding text_eq
source_label (some (str s)) =
    if text_eq s (codes "canned")
    then some (codes "scripted reply")
    else if text_eq s (codes "model")
    then some (codes "generated by a local model")
    else if text_eq s (codes "facts")
    then some (codes "from this page's stated facts")
    else none
source_label _ = none
