-- ===== src/Orb/Examples.antt =====
-- A few questions to the page assistant.
use mathlib.Core.List.{Memᴰ}
use fintech_innova_hack.Prelude.{◌≡◌, refl, ◌⊎◌, Option, none, some, [], ◌∷◌, true}
use fintech_innova_hack.Prelude.Text.{Text, codes, text_eq}
use fintech_innova_hack.Json.{Json, str, obj, end, entry}
use fintech_innova_hack.Orb.Chat.{
  Chat, opening, question_of, send, request_body, Reach, begin, next, open_panel, send_suggestion,
  message_of, answer_json, source_label,
}
use fintech_innova_hack.Orb.Chat.Conversation.{Turns, Reach-Turns, Reach-answered}
use fintech_innova_hack.Orb.Facts.{facts, vault, topic}
use fintech_innova_hack.Orb.Prompt.{score}
use fintech_innova_hack.Orb.Answers.{greeting, introduction, fact_fallback}
use fintech_innova_hack.Orb.Route.{Platform, model_reply, facts_reply, base_of, post}
use fintech_innova_hack.Orb.Route.Sorting.{IsAsked, IsRefused, IsOwn}
use fintech_innova_hack.Orb.Route.Answered.{post-IsRefused, IsModels, post-IsModels, post-IsOwn}

abbrev inquiry : Text
inquiry = codes "which vendors may an agent with a restricted vault pay"

abbrev asking : Text → Option Json
asking text = some (obj (entry (codes "message") (str text) end))

-- A server that answers every call with the same reply.
abbrev served : Platform
served = record {
  orb_model = none;
  ollama_url = some (codes "http://gpu:11434//");
  fetch = λ call. some (record { status = 200; content_type = none; body = [] });
  parse_json = λ body. some (
      obj (
        entry (codes "message")
          (obj (entry (codes "content") (str (codes " **Only listed ones.** ")) end)) end));
}

abbrev unserved : Platform
unserved = record served { ollama_url = some (codes " ") }

base_read : base_of served.ollama_url ≡ some (codes "http://gpu:11434")
unfolding base_of
base_read = refl

base_unread : base_of unserved.ollama_url ≡ none
unfolding base_of
base_unread = refl

modelled : (post served (asking inquiry)).0.source ≡ model_reply
unfolding post
modelled = refl

cleaned : (post served (asking inquiry)).0.text ≡ codes "Only listed ones."
unfolding post
cleaned = refl

post-IsModels_example : IsModels served (asking inquiry) (post served (asking inquiry))
post-IsModels_example = post-IsModels served (asking inquiry) modelled

post-IsOwn_example :
    ((post unserved (asking inquiry)).1 ≡ []) × IsOwn (post unserved (asking inquiry)).0.text
post-IsOwn_example = post-IsOwn unserved (asking inquiry) base_unread

post-IsRefused_example :
    ((m : Text) × IsAsked (asking inquiry) m × ((post served (asking inquiry)).0.status ≡ 200))
    ⊎ (¬ ((m : Text) × IsAsked (asking inquiry) m)) × IsRefused (post served (asking inquiry))
post-IsRefused_example = post-IsRefused served (asking inquiry)

vault_known : Memᴰ vault facts
vault_known = Memᴰ.tail (Memᴰ.tail (Memᴰ.tail (Memᴰ.head refl)))

vault_scored : score inquiry vault ≡ 5
unfolding score
vault_scored = refl

greeted : (post unserved (asking (codes " Good Morning!! "))).0.text ≡ greeting
unfolding post
greeted = refl

not_greeted : (post unserved (asking (codes "Hi there, what?"))).0.source ≡ facts_reply
unfolding post
not_greeted = refl

introduced : (post unserved (asking (codes "so who ARE you?"))).0.text ≡ introduction
unfolding post
introduced = refl

looked_up : fact_fallback (codes "What is the LIMIT?") ≡ some (topic (codes "vault"))
unfolding fact_fallback
looked_up = refl

abbrev asked_panel : Chat
asked_panel = record {
  is_open = true;
  messages = opening ∷ question_of (codes "Is this real money?") ∷ [];
  draft = [];
  pending = true;
}

-- The panel is opened, and its third suggestion is sent.
reached : Reach asked_panel
unfolding send
reached = next (next begin open_panel) (
    send_suggestion (codes "Is this real money?") (Memᴰ.tail (Memᴰ.tail (Memᴰ.head refl))) refl
      refl)

Reach-Turns_example : Turns true asked_panel.messages
Reach-Turns_example = Reach-Turns reached

Reach-answered_example :
    (q : Text) × (str (codes "Is this real money?") ≡ str q)
    × ((post served (some (request_body q))).0.status ≡ 200)
Reach-answered_example =
    Reach-answered served (question_of (codes "Is this real money?")) reached
      (Memᴰ.tail (Memᴰ.head refl)) refl

-- The handler's answer is shown with its source.
labelled :
    source_label (message_of (some (answer_json (post unserved (asking inquiry)).0))).source
    ≡ some (codes "from this page's stated facts")
unfolding source_label message_of answer_json post text_eq
labelled = refl
