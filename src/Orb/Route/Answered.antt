-- ===== src/Orb/Route/Answered.antt =====
-- What the page assistant answers, and when it asks the model.
use mathlib.Core.List.{Memᴰ, reverse_aux}
use mathlib.Core.Path.{subst}
use fintech_innova_hack.Prelude.{
  ℕ, ◌≡◌, refl, ◌≢◌, ◌⊎◌, inl, inr, sym, ap, ◌∙◌, Bool, true, false, not, Option, none, some, List,
  [], ◌∷◌, keep, ltb, leb, ◌&&◌, All, Bool-cases, Option-cases,
}
use fintech_innova_hack.Prelude.Members.{Memᴰ-keep, All_intro, map-Memᴰ, find_sound}
use fintech_innova_hack.Prelude.Text.{Text, codes, trim, trim_start, trim_end, is_space}
use fintech_innova_hack.Json.{Json, str}
use fintech_innova_hack.Server.Http.{Call, Reply}
use fintech_innova_hack.Orb.Answers.{Canned, canned, fact_fallback}
use fintech_innova_hack.Orb.Answers.Fallback.{fact_fallback-Memᴰ}
use fintech_innova_hack.Orb.Route.{
  Platform, Answer, model_reply, reply, base_of, is_emphasis, not_blank, clean, member, read_reply,
  chat_call, ask_at, ask_model, from_facts, from_model, answer_with, post,
}
use fintech_innova_hack.Orb.Route.Sorting.{IsAsked, IsOwn, IsRefused, canned_for, post_cases}

module _ (P : ℕ → Type 0) where
  All-reverse_aux : (s r : Text) → All P s → All P r → All P (reverse_aux s r)
  All-reverse_aux [] r h k = k
  All-reverse_aux (c ∷ s) r (p, h) k = All-reverse_aux s (c ∷ r) h (p, k)

  All-trim_start : (s : Text) → All P s → All P (trim_start s)
  unfolding trim_start
  All-trim_start [] h = tt
  All-trim_start (c ∷ s) (p, h) = elim (Bool-cases (is_space c)) [
    | inl e ↦ rw e (All-trim_start s h)
    | inr e ↦ rw e (p, h)
  ]

  All-trim : (s : Text) → All P s → All P (trim s)
  unfolding trim trim_end
  All-trim s h =
      All-reverse_aux _ [] (All-trim_start _ (All-reverse_aux _ [] (All-trim_start s h) tt)) tt

-- The model's text, once it is cleaned, is not empty and has none of Markdown's characters.
abbrev pub IsPlain : Text → Type 0
IsPlain t = (t ≢ []) × All (λ c. is_emphasis c ≡ false) t

not_blank_sound : (s t : Text) → not_blank s ≡ some t → (t ≢ []) × (s ≡ t)
unfolding not_blank
not_blank_sound [] t e = absurd (cc e)
not_blank_sound (c ∷ s) t e = (λ k. cc (e, k), cc e)

not-true : (b : Bool) → not b ≡ true → b ≡ false
not-true true e = cc e
not-true false e = refl

clean-IsPlain : (v : Option Json) (t : Text) → clean v ≡ some t → IsPlain t
unfolding clean
clean-IsPlain (some (str content)) t e =
    let (full, same) = not_blank_sound _ t e in
    (
      full,
      subst (λ s. All (λ c. is_emphasis c ≡ false) s) same
          (All-trim (λ c. is_emphasis c ≡ false) _
            (All_intro (λ c. is_emphasis c ≡ false) (keep (λ c. not (is_emphasis c)) content)
              (λ c m.
                not-true (is_emphasis c) (Memᴰ-keep (λ c. not (is_emphasis c)) c content m).1))),
    )
clean-IsPlain _ t e = absurd (cc e)

answer_with_status :
    (p : Platform) (m : Text) (c : Option Canned) → (answer_with p m c).0.status ≡ 200
unfolding answer_with
answer_with_status p m (some c) = refl
answer_with_status p m none = from_model_status (ask_model p m) (fact_fallback m)
  where
    from_facts_status : (o : Option Text) → (from_facts o).status ≡ 200
    from_facts_status none = refl
    from_facts_status (some t) = refl

    from_model_status :
        (a : Option Text × List Call) (o : Option Text) → (from_model a o).0.status ≡ 200
    from_model_status (some t, sent) o = refl
    from_model_status (none, sent) o = from_facts_status o

-- A question that is a text, not blank, of 600 units at most, is answered with the status 200, and no
-- other is: the others are told so in a sentence of the handler, without a call.
pub post-IsRefused :
    (p : Platform) (body : Option Json)
    → ((m : Text) × IsAsked body m × ((post p body).0.status ≡ 200))
      ⊎ (¬ ((m : Text) × IsAsked body m)) × IsRefused (post p body)
post-IsRefused p body = elim (post_cases p body) [
  | inl (m, q, e) ↦ inl (
    m,
    q,
    ap (λ (r : Answer × List Call). r.0.status) e
        ∙ answer_with_status p (trim m) (canned_for (trim m)),
  )
  | inr r ↦ inr r
]

-- What is so of an answer that is said to be the model's.
pub record IsModels (p : Platform) (body : Option Json) (r : Answer × List Call) : Type 0 where
  pub message : Text
  pub asked : IsAsked body message
  pub unmatched : canned_for (trim message) ≡ none
  pub base : Text
  pub configured : base_of p.ollama_url ≡ some base
  pub calls : r.1 ≡ chat_call p base (trim message) ∷ []
  pub said : read_reply p (p.fetch (chat_call p base (trim message))) ≡ some r.0.text
  pub plain : IsPlain r.0.text

read_reply-IsPlain :
    (p : Platform) (r : Option Reply) (t : Text) → read_reply p r ≡ some t → IsPlain t
unfolding read_reply
read_reply-IsPlain p none t e = absurd (cc e)
read_reply-IsPlain p (some r) t e = elim (Bool-cases (leb 200 r.status && ltb r.status 300)) [
  | inl f ↦
      clean-IsPlain (member (codes "content") (member (codes "message") (p.parse_json r.body))) t
        (rw f at e)
  | inr f ↦ absurd (cc (rw f at e))
]

from_facts_source : (o : Option Text) → (from_facts o).source ≢ model_reply
unfolding from_facts reply
from_facts_source none e = cc e
from_facts_source (some t) e = cc e

ask_at_sound :
    (p : Platform) (m : Text) (b : Option Text) (fallback : Option Text)
    → (from_model (ask_at p m b) fallback).0.source ≡ model_reply
    → (base : Text) × (b ≡ some base)
      × ((from_model (ask_at p m b) fallback).1 ≡ chat_call p base m ∷ [])
      × (read_reply p (p.fetch (chat_call p base m))
          ≡ some (from_model (ask_at p m b) fallback).0.text)
unfolding ask_at from_model reply
ask_at_sound p m none fallback e = absurd (from_facts_source fallback e)
ask_at_sound p m (some base) fallback e =
    elim (Option-cases (read_reply p (p.fetch (chat_call p base m)))) [
      | inl f ↦ absurd (from_facts_source fallback (rw f at e))
      | inr (t, f) ↦ (base, refl, rw f refl, rw f refl)
    ]

model_source :
    (p : Platform) (m : Text) (c : Option Canned)
    → (answer_with p m c).0.source ≡ model_reply
    → (c ≡ none)
      × (answer_with p m c ≡ from_model (ask_at p m (base_of p.ollama_url)) (fact_fallback m))
unfolding answer_with ask_model reply
model_source p m (some c) e = absurd (cc e)
model_source p m none e = (refl, refl)

-- An answer that is said to be the model's is the cleaned text of a reply of its server: the question
-- is one that is answered and no canned reply fits it, a server is configured, one call was made, with
-- the prompt for the trimmed question, and the text is not empty and holds no `*`, `_`, backquote or
-- `#`.
pub post-IsModels :
    (p : Platform) (body : Option Json)
    → (post p body).0.source ≡ model_reply
    → IsModels p body (post p body)
post-IsModels p body e = elim (post_cases p body) [
  | inr (_, r) ↦ absurd (cc (e, r.source))
  | inl (m, q, same) ↦
      let (unmatched, met) =
        model_source p (trim m) (canned_for (trim m))
          (sym (ap (λ (r : Answer × List Call). r.0.source) same) ∙ e) in
      let all = same ∙ met in
      let (base, configured, calls, said) =
        ask_at_sound p (trim m) (base_of p.ollama_url) (fact_fallback (trim m))
          (sym (ap (λ (r : Answer × List Call). r.0.source) all) ∙ e) in
      let told = said ∙ ap (λ (r : Answer × List Call). some r.0.text) (sym all) in
      record {
        message = m;
        asked = q;
        unmatched = unmatched;
        base = base;
        configured = configured;
        calls = ap (λ (r : Answer × List Call). r.1) all ∙ calls;
        said = told;
        plain = read_reply-IsPlain p _ _ told;
      }
]

from_facts-IsOwn : (m : Text) (o : Option Text) → fact_fallback m ≡ o → IsOwn (from_facts o).text
unfolding from_facts reply
from_facts-IsOwn m none e = inl (Memᴰ.tail (Memᴰ.tail (Memᴰ.tail (Memᴰ.head refl))))
from_facts-IsOwn m (some t) e = inr (inr (fact_fallback-Memᴰ m t e))

answer_with-IsOwn :
    (p : Platform) (m : Text) (c : Option Canned)
    → canned_for m ≡ c
    → base_of p.ollama_url ≡ none
    → ((answer_with p m c).1 ≡ []) × IsOwn (answer_with p m c).0.text
unfolding answer_with ask_model ask_at from_model reply
answer_with-IsOwn p m (some c) e f =
    (refl, inr (inl (map-Memᴰ (λ c. c.reply) c canned (find_sound (λ c. c.match m) c canned e).0)))
answer_with-IsOwn p m none e f = rw f (refl, from_facts-IsOwn m (fact_fallback m) refl)

-- Where no server is configured, no call is made, and every answer is a text of the repository: a
-- notice of the handler, a canned reply, or the text of a fact.
pub post-IsOwn :
    (p : Platform) (body : Option Json)
    → base_of p.ollama_url ≡ none
    → ((post p body).1 ≡ []) × IsOwn (post p body).0.text
post-IsOwn p body e = elim (post_cases p body) [
  | inr (_, r) ↦ (r.calls, inl r.text)
  | inl (m, q, same) ↦
      let (calls, own) = answer_with-IsOwn p (trim m) (canned_for (trim m)) refl e in
      (rw same calls, rw same own)
]
