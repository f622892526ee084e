-- ===== src/Orb/Answers.antt =====
-- frontend/lib/orb-knowledge.ts: the answers that the page assistant gives without the model. The
-- regular expressions of the source are the functions `is_line` and `has_phrase`.
pub mod Fallback
use fintech_innova_hack.Prelude.{
  ℕ, ◌+◌, Bool, true, false, not, ◌&&◌, ◌||◌, Option, none, some, List, [], ◌∷◌, ◌++◌, any, leb,
  ◌==◌, if◌then◌else◌,
}
use fintech_innova_hack.Prelude.Text.{Text, codes, includes, is_space, trim_start}
use fintech_innova_hack.Orb.Facts.{topic}
use fintech_innova_hack.Orb.Prompt.{lower_message, is_word_unit}

-- One unit under the flag `i`: outside of ASCII no letter stands for one of ASCII.
fold_unit : ℕ → ℕ
fold_unit c = if leb b'A' c && leb c b'Z' then c + 32 else c

-- The units after a phrase, in either case.
after_phrase : Text → Text → Option Text
unfolding fold_unit
after_phrase [] s = some s
after_phrase (p ∷ ps) [] = none
after_phrase (p ∷ ps) (c ∷ s) = if p == fold_unit c then after_phrase ps s else none

-- `[\s!.,]*$`
is_closing : Text → Bool
unfolding is_space
is_closing [] = true
is_closing (c ∷ s) = (is_space c || c == b'!' || c == b'.' || c == b',') && is_closing s

closes : Option Text → Bool
unfolding is_closing
closes none = false
closes (some s) = is_closing s

-- `/^\s*(…|…)\b[\s!.,]*$/i`: no unit that may close is a word's, so the boundary is there.
unfoldable pub is_line : List Text → Text → Bool
unfolding closes after_phrase trim_start
is_line phrases text = any (λ p. closes (after_phrase p (trim_start text))) phrases

ends_word : Option Text → Bool
unfolding is_word_unit
ends_word none = false
ends_word (some []) = true
ends_word (some (c ∷ s)) = not (is_word_unit c)

-- `/\b…\b/i`, for a phrase that begins and ends with a letter; `inside` says whether a word's unit
-- stands before the text.
phrase_from : Text → Bool → Text → Bool
unfolding ends_word after_phrase is_word_unit
phrase_from phrase inside [] = not inside && ends_word (after_phrase phrase [])
phrase_from phrase inside (c ∷ s) =
    (not inside && ends_word (after_phrase phrase (c ∷ s))) || phrase_from phrase (is_word_unit c) s

unfoldable pub has_phrase : List Text → Text → Bool
unfolding phrase_from
has_phrase phrases text = any (λ p. phrase_from p false text) phrases

pub record Canned : Type 0 where
  pub match : Text → Bool
  pub reply : Text

abbrev pub greeting : Text
greeting =
    codes "Hi! I'm the CredenceAI orb. This page is about task-backed credit for autonomous "
    ++ codes "agents — verified passports, restricted vaults, automatic repayment. Ask me "
    ++ codes "anything about it."

abbrev pub thanks : Text
thanks = codes "Glad that helped. Anything else you want to know about the page?"

abbrev pub farewell : Text
farewell = codes "Take care. The sandbox disclosure section is worth a read before you go."

abbrev pub introduction : Text
introduction =
    codes "I'm a small assistant that answers questions about this page. I run on a compact "
    ++ codes "local model, I only speak from what this site actually states, and I have no "
    ++ codes "access to any account or vault data."

unfoldable pub canned : List Canned
unfolding is_line has_phrase
canned =
    record {
      match = is_line (
          codes "hi"
          ∷ codes "hey"
          ∷ codes "hello"
          ∷ codes "yo"
          ∷ codes "hiya"
          ∷ codes "howdy"
          ∷ codes "hi there"
          ∷ codes "hey there"
          ∷ codes "good morning"
          ∷ codes "good afternoon"
          ∷ codes "good evening"
          ∷ []);
      reply = greeting;
    }
    ∷ record {
      match = is_line (
          codes "thanks"
          ∷ codes "thank you"
          ∷ codes "ty"
          ∷ codes "cheers"
          ∷ codes "nice"
          ∷ codes "cool"
          ∷ codes "great"
          ∷ codes "awesome"
          ∷ []);
      reply = thanks;
    }
    ∷ record {
      match =
          is_line
            (codes "bye" ∷ codes "goodbye" ∷ codes "see ya" ∷ codes "see you" ∷ codes "later" ∷ []);
      reply = farewell;
    }
    ∷ record {
      match = has_phrase (
          codes "who are you"
          ∷ codes "what are you"
          ∷ codes "what can you do"
          ∷ codes "your name"
          ∷ []);
      reply = introduction;
    }
    ∷ []

hit : Text → List Text → Bool
unfolding includes
hit question words = any (λ w. includes w question) words

route : Text → Option Text
unfolding hit topic
route q =
    if hit q (codes "repay" ∷ codes "waterfall" ∷ codes "revenue" ∷ codes "principal" ∷ [])
    then some (topic (codes "repayment"))
    else if hit q (codes "vault" ∷ codes "limit" ∷ codes "vendor" ∷ codes "spend" ∷ [])
    then some (topic (codes "vault"))
    else if hit q (codes "passport" ∷ codes "identity" ∷ codes "verif" ∷ [])
    then some (topic (codes "passport"))
    else if hit q
        (codes "policy" ∷ codes "rego" ∷ codes "opa" ∷ codes "authoris" ∷ codes "authoriz" ∷ [])
    then some (topic (codes "policy"))
    else if hit q
        (codes "model" ∷ codes "llm" ∷ codes "mistral" ∷ codes "ai " ∷ codes "hallucinat" ∷ [])
    then some (topic (codes "ai role"))
    else if hit q (codes "audit" ∷ codes "trace" ∷ codes "ledger" ∷ codes "chain" ∷ [])
    then some (topic (codes "audit"))
    else if hit q (
        codes "sandbox"
        ∷ codes "real money"
        ∷ codes "licens"
        ∷ codes "regulat"
        ∷ codes "legal"
        ∷ codes "safe"
        ∷ codes "risk"
        ∷ codes "lose"
        ∷ [])
    then some (topic (codes "sandbox"))
    else if hit q (codes "accur" ∷ codes "metric" ∷ codes "how good" ∷ codes "reliab" ∷ [])
    then some (topic (codes "limits"))
    else if hit q (
        codes "what"
        ∷ codes "who"
        ∷ codes "explain"
        ∷ codes "about"
        ∷ codes "credence"
        ∷ codes "do"
        ∷ [])
    then some (topic (codes "what it is"))
    else none

unfoldable pub fact_fallback : Text → Option Text
unfolding route lower_message
fact_fallback message = route (lower_message message)
