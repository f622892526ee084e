-- ===== src/Orb/Route/Sorting.antt =====
-- Which questions the page assistant answers, and what it says to the others.
use mathlib.Core.List.{Memᴰ}
use fintech_innova_hack.Prelude.{
  ◌≤◌, ◌≡◌, refl, ◌≢◌, ◌⊎◌, inl, inr, sym, ap, ◌∙◌, true, false, Option, none, some, List, [], ◌∷◌,
  map, find, ltb, ltb→lt, length, arith, Bool-cases,
}
use fintech_innova_hack.Prelude.Text.{Text, codes, text_eq, trim}
use fintech_innova_hack.Prelude.Text.Laws.{text_eq_iff}
use fintech_innova_hack.Json.{Json, null, bool, num, str, arr, obj}
use fintech_innova_hack.Server.Http.{Call}
use fintech_innova_hack.Orb.Answers.{Canned, canned}
use fintech_innova_hack.Orb.Answers.Fallback.{fact_texts}
use fintech_innova_hack.Orb.Route.{
  Platform, Answer, facts_reply, reply, is_blank, member, unread, unasked, overlong, unknown,
  answer_with, asked, post, max_message_chars,
}

-- A question that is answered: a text that is not blank, of 600 units at most.
pub record IsAsked (body : Option Json) (message : Text) : Type 0 where
  pub read : member (codes "message") body ≡ some (str message)
  pub filled : trim message ≢ []
  pub short : length message ≤ 600

-- The texts of the handler itself.
abbrev pub notices : List Text
notices = unread ∷ unasked ∷ overlong ∷ unknown ∷ []

abbrev pub canned_texts : List Text
canned_texts = map (λ c. c.reply) canned

-- A text of the repository.
abbrev pub IsOwn : Text → Type 0
IsOwn t = Memᴰ t notices ⊎ Memᴰ t canned_texts ⊎ Memᴰ t fact_texts

-- What is refused: the answer is a notice with another status than 200, and there is no call.
pub record IsRefused (r : Answer × List Call) : Type 0 where
  pub status : r.0.status ≢ 200
  pub source : r.0.source ≡ facts_reply
  pub text : Memᴰ r.0.text notices
  pub calls : r.1 ≡ []

abbrev pub canned_for : Text → Option Canned
canned_for trimmed = find (λ c. c.match trimmed) canned

blank_cases :
    (m : Text) → (is_blank m ≡ true) × (trim m ≡ []) ⊎ (is_blank m ≡ false) × (trim m ≢ [])
unfolding is_blank
blank_cases m = elim (Bool-cases (text_eq (trim m) [])) [
  | inl e ↦ inl (e, (text_eq_iff (trim m) []).0 e)
  | inr e ↦ inr (e, λ k. cc (e, (text_eq_iff (trim m) []).1 k))
]

abbrev pub Sorted : Platform → Option Json → Answer × List Call → Type 0
Sorted p body r =
    ((m : Text) × IsAsked body m × (r ≡ answer_with p (trim m) (canned_for (trim m))))
    ⊎ (¬ ((m : Text) × IsAsked body m)) × IsRefused r

one_message :
    (body : Option Json) (k m : Text)
    → member (codes "message") body ≡ some (str k)
    → member (codes "message") body ≡ some (str m)
    → k ≡ m
one_message body k m e f = cc (sym e ∙ f)

too_long : (m k : Text) → k ≡ m → ltb max_message_chars (length m) ≡ true → length k ≤ 600 → ⊥
too_long m k e l h = omega (arith, ltb→lt 600 (length m) l, ap (λ (t : Text). length t) e)

asked_cases :
    (p : Platform) (body : Option Json) (m : Text)
    → member (codes "message") body ≡ some (str m)
    → Sorted p body (asked p (some (str m)))
unfolding asked reply
asked_cases p body m e = elim (blank_cases m) [
  | inl (b, empty) ↦ rw b (
      inr (
        λ (k, q). q.filled (ap trim (one_message body k m q.read e) ∙ empty),
        record {
          status = λ k. omega (arith, k);
          source = refl;
          text = Memᴰ.tail (Memᴰ.head refl);
          calls = refl;
        },
      ))
  | inr (b, full) ↦ elim (Bool-cases (ltb max_message_chars (length m))) [
    | inl l ↦
        rw (b, l)
          (inr (
            λ (k, q). too_long m k (one_message body k m q.read e) l q.short,
            record {
              status = λ k. omega (arith, k);
              source = refl;
              text = Memᴰ.tail (Memᴰ.tail (Memᴰ.head refl));
              calls = refl;
            },
          ))
    | inr l ↦ rw (b, l) (inl (m, record { read = e; filled = full; short = ground arith }, refl))
  ]
]

unasked-IsRefused : IsRefused (reply unasked facts_reply 400, [])
unfolding reply
unasked-IsRefused = record {
  status = λ k. omega (arith, k);
  source = refl;
  text = Memᴰ.tail (Memᴰ.head refl);
  calls = refl;
}

member_cases :
    (p : Platform) (body : Option Json) (o : Option Json)
    → member (codes "message") body ≡ o
    → Sorted p body (asked p o)
unfolding asked
member_cases p body (some (str m)) e = asked_cases p body m e
member_cases p body none e = inr ((λ (k, q). cc (e, q.read)), unasked-IsRefused)
member_cases p body (some (bool b)) e = inr ((λ (k, q). cc (e, q.read)), unasked-IsRefused)
member_cases p body (some (num n)) e = inr ((λ (k, q). cc (e, q.read)), unasked-IsRefused)
member_cases p body (some null) e = inr ((λ (k, q). cc (e, q.read)), unasked-IsRefused)
member_cases p body (some (arr vs)) e = inr ((λ (k, q). cc (e, q.read)), unasked-IsRefused)
member_cases p body (some (obj es)) e = inr ((λ (k, q). cc (e, q.read)), unasked-IsRefused)

pub post_cases : (p : Platform) (body : Option Json) → Sorted p body (post p body)
unfolding post reply
post_cases p none = inr (
  λ (k, q). cc (q.read),
  record { status = λ k. omega (arith, k); source = refl; text = Memᴰ.head refl; calls = refl },
)
post_cases p (some body) = member_cases p (some body) _ refl
