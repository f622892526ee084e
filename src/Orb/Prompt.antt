-- ===== src/Orb/Prompt.antt =====
-- frontend/lib/orb-knowledge.ts: the prompt that the page assistant gives the model for a question.
pub mod Ranking
pub mod Selection
use fintech_innova_hack.Prelude.{
  ℕ, Bool, true, false, not, ◌&&◌, ◌||◌, List, [], ◌∷◌, ◌++◌, map, any, keep, take, length, ltb,
  leb, ◌==◌, if◌then◌else◌,
}
use fintech_innova_hack.Prelude.Text.{
  Text, codes, text_eq, starts_with, includes, lower_unit, to_lower, join, split,
}
use fintech_innova_hack.Orb.Facts.{Fact, facts, what_it_is, sandbox, ai_role}

abbrev sections : List (Text × Text)
sections =
    (codes "How it works", codes "#how-it-works")
    ∷ (codes "Products", codes "#products")
    ∷ (codes "Safety", codes "#safety")
    ∷ (codes "Deployment", codes "#deployment")
    ∷ (codes "Sandbox disclosure", codes "#sandbox")
    ∷ (codes "Console", codes "/console")
    ∷ []

abbrev rules : Text
rules =
    codes "You are the assistant orb on the CredenceAI website. You help visitors understand "
    ++ codes "what this page is about.\n\nAnswer ONLY from the facts below. If a question is not "
    ++ codes "covered by them, say plainly that you do not know and point the visitor at the "
    ++ codes "relevant section of the page. Never invent a feature, a number, a partner, a "
    ++ codes "customer, a price, or a compliance claim.\n\nNever say CredenceAI is production "
    ++ codes "ready, fully secure, guaranteed, or 100% accurate. Never state that Open Policy "
    ++ codes "Agent authorises spends — the deployed evaluator is an in-process mirror of the "
    ++ codes "Rego bundle. Never offer financial or investment advice. If asked for account, "
    ++ codes "balance, or personal data, explain you have no access to any of it.\n\nKeep replies "
    ++ codes "to two or three sentences. Be warm and direct. Plain text only — no markdown, no "
    ++ codes "bullet points, no headings."

-- `toLowerCase`, as far as ASCII words are looked for in the result: the capital I with a dot becomes
-- an i and a combining dot.
unfoldable pub lower_message : Text → Text
unfolding lower_unit
lower_message [] = []
lower_message (c ∷ s) =
    if c == 0x130 then b'i' ∷ 0x307 ∷ lower_message s else lower_unit c ∷ lower_message s

-- `\w`
unfoldable pub is_word_unit : ℕ → Bool
is_word_unit c =
    (leb b'0' c && leb c b'9')
    || (leb b'A' c && leb c b'Z')
    || c == b'_'
    || (leb b'a' c && leb c b'z')

begins_apart : Text → Bool
unfolding is_word_unit
begins_apart [] = false
begins_apart (c ∷ s) = not (is_word_unit c)

-- `split(/\W+/)`: the first part and the others. A unit that goes on a run ends no part of its own.
word_parts : Text → Text × List Text
unfolding is_word_unit begins_apart
word_parts [] = ([], [])
word_parts (c ∷ s) =
    let (p, ps) = word_parts s in
    if is_word_unit c then (c ∷ p, ps) else if begins_apart s then (p, ps) else ([], p ∷ ps)

unfoldable pub words_of : Text → List Text
unfolding word_parts
words_of text = let (p, ps) = word_parts text in p ∷ ps

-- The words of more than four units that the question has, of a fact's topic and text.
unfoldable pub score : Text → Fact → ℕ
unfolding words_of split includes to_lower
score question f = length (
    keep (λ w. ltb 4 (length w) && includes w question)
      (split b' ' f.topic ++ words_of (to_lower f.text)))

pub record Scored : Type 0 where
  pub fact : Fact
  pub points : ℕ

unfoldable pub scored : Text → List Scored
unfolding score
scored question = map (λ f. record { fact = f; points = score question f }) facts

-- `sort((a, b) => b.score - a.score)`, which keeps equals in their order.
unfoldable pub insert : Scored → List Scored → List Scored
insert x [] = x ∷ []
insert x (y ∷ ys) = if leb y.points x.points then x ∷ y ∷ ys else y ∷ insert x ys

unfoldable pub sort : List Scored → List Scored
unfolding insert
sort [] = []
sort (x ∷ xs) = insert x (sort xs)

-- The facts that have a word of the question, the best four.
unfoldable pub ranked : Text → List Scored
unfolding sort scored
ranked question = sort (keep (λ s. ltb 0 s.points) (scored question))

unfoldable pub chosen : Text → List Fact
unfolding ranked
chosen question = map (λ s. s.fact) (take 4 (ranked question))

-- For an open-ended question, the overview.
base_of : List Fact → List Fact
base_of [] = what_it_is ∷ ai_role ∷ []
base_of (f ∷ fs) = f ∷ fs

-- No two facts have one topic, so the sandbox fact is there if its topic is.
unfoldable pub pin : List Fact → List Fact
unfolding text_eq
pin base = if any (λ f. text_eq f.topic sandbox.topic) base then base else base ++ sandbox ∷ []

unfoldable pub selected : Text → List Fact
unfolding base_of pin chosen lower_message
selected message = pin (base_of (chosen (lower_message message)))

join_text : Text → List Text → Text
join_text sep [] = []
join_text sep (p ∷ []) = p
join_text sep (p ∷ q ∷ ps) = p ++ sep ++ join_text sep (q ∷ ps)

fact_line : Fact → Text
fact_line f = codes "- " ++ f.topic ++ codes ": " ++ f.text

section_link : Text × Text → Text
section_link (label, href) = label ++ codes " (" ++ href ++ codes ")"

unfoldable pub prompt_of : List Fact → Text
unfolding join fact_line section_link join_text
prompt_of fs =
    rules
    ++ codes "\n\nFACTS:\n"
    ++ join b'\n' (map fact_line fs)
    ++ codes "\n\nPAGE SECTIONS you may point to: "
    ++ join_text (codes ", ") (map section_link sections)

unfoldable pub build_prompt : Text → Text
unfolding prompt_of selected
build_prompt message = prompt_of (selected message)

abbrev pub system_prompt : Text
system_prompt = prompt_of facts
