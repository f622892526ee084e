-- ===== src/Orb/Answers/Fallback.antt =====
-- Where the answers without the model come from.
use mathlib.Core.List.{Memᴰ}
use mathlib.Core.Path.{subst}
use fintech_innova_hack.Prelude.{
  ◌≡◌, refl, Bool, true, false, Option, none, some, List, map, if◌then◌else◌,
}
use fintech_innova_hack.Prelude.Text.{Text, codes, text_eq}
use fintech_innova_hack.Orb.Facts.{facts, topic}
use fintech_innova_hack.Orb.Answers.{fact_fallback, route}
use fintech_innova_hack.Orb.Prompt.{lower_message}

abbrev pub fact_texts : List Text
fact_texts = map (λ f. f.text) facts

abbrev IsFact : Option Text → Type 0
IsFact o = (t : Text) → o ≡ some t → Memᴰ t fact_texts

either :
    (test : Bool) (t : Text) (o : Option Text)
    → Memᴰ t fact_texts
    → IsFact o
    → IsFact (if test then some t else o)
either true t o m h u e = subst (λ x. Memᴰ x fact_texts) (cc e) m
either false t o m h u e = h u e

route-IsFact : (q : Text) → IsFact (route q)
unfolding route topic text_eq
route-IsFact q = either _ _ _ m5 (
    either _ _ _ m3 (
      either _ _ _ m2 (
        either _ _ _ m4 (
          either _ _ _ m6
            (either _ _ _ m8 (either _ _ _ m1 (either _ _ _ m9 (either _ _ _ m0 nothing))))))))
  where
    nothing : IsFact none
    nothing t e = absurd (cc e)

    m0 : Memᴰ (topic (codes "what it is")) fact_texts
    m0 = Memᴰ.head refl

    m1 : Memᴰ (topic (codes "sandbox")) fact_texts
    m1 = Memᴰ.tail (Memᴰ.head refl)

    m2 : Memᴰ (topic (codes "passport")) fact_texts
    m2 = Memᴰ.tail (Memᴰ.tail (Memᴰ.head refl))

    m3 : Memᴰ (topic (codes "vault")) fact_texts
    m3 = Memᴰ.tail (Memᴰ.tail (Memᴰ.tail (Memᴰ.head refl)))

    m4 : Memᴰ (topic (codes "policy")) fact_texts
    m4 = Memᴰ.tail (Memᴰ.tail (Memᴰ.tail (Memᴰ.tail (Memᴰ.head refl))))

    m5 : Memᴰ (topic (codes "repayment")) fact_texts
    m5 = Memᴰ.tail (Memᴰ.tail (Memᴰ.tail (Memᴰ.tail (Memᴰ.tail (Memᴰ.head refl)))))

    m6 : Memᴰ (topic (codes "ai role")) fact_texts
    m6 = Memᴰ.tail (Memᴰ.tail (Memᴰ.tail (Memᴰ.tail (Memᴰ.tail (Memᴰ.tail (Memᴰ.head refl))))))

    m8 : Memᴰ (topic (codes "audit")) fact_texts
    m8 = Memᴰ.tail (
        Memᴰ.tail
          (Memᴰ.tail (Memᴰ.tail (Memᴰ.tail (Memᴰ.tail (Memᴰ.tail (Memᴰ.tail (Memᴰ.head refl))))))))

    m9 : Memᴰ (topic (codes "limits")) fact_texts
    m9 = Memᴰ.tail (
        Memᴰ.tail (
          Memᴰ.tail (
            Memᴰ.tail
              (Memᴰ.tail (Memᴰ.tail (Memᴰ.tail (Memᴰ.tail (Memᴰ.tail (Memᴰ.head refl)))))))))

-- An answer from the facts is the text of one of them.
pub fact_fallback-Memᴰ : (message t : Text) → fact_fallback message ≡ some t → Memᴰ t fact_texts
unfolding fact_fallback
fact_fallback-Memᴰ message t e = route-IsFact (lower_message message) t e
