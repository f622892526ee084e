-- ===== src/Pages/Status/Laws.antt =====
-- What the labels and colours of backend codes are.
use mathlib.Core.List.{Memᴰ}
use mathlib.Core.Path.{subst}
use fintech_innova_hack.Prelude.{
  ◌≡◌, refl, sym, Bool, true, not, ◌&&◌, Option, none, some, List, [], ◌∷◌, All, arith, ◌==◌, ◌⊎◌,
  inl, inr, Bool-cases, and-eq_true,
}
use fintech_innova_hack.Prelude.Text.{Text, codes, text_eq}
use fintech_innova_hack.Prelude.Text.Laws.{text_eq_iff}
use fintech_innova_hack.Format.Labels.Laws.{IsWordUnit, humanise-IsWordUnit}
use fintech_innova_hack.Pages.Status.{
  BadgeTone, neutral, tones, labels, entry_at, tone_or_neutral, status_tone, label_or_words,
  status_label,
}

entry_at_sound :
    {A : Type 0} (es : List (Text × A)) (key : Text) (v : A)
    → entry_at es key ≡ some v
    → Memᴰ (key, v) es
unfolding entry_at
entry_at_sound [] key v h = absurd (cc h)
entry_at_sound ((k, w) ∷ es) key v h = elim (Bool-cases (text_eq k key)) [
  | inl e ↦
      let same : w ≡ v = cc (rw e at h) in
      Memᴰ.head (λ i. (sym ((text_eq_iff k key).0 e) i, sym same i))
  | inr e ↦ Memᴰ.tail (entry_at_sound es key v (rw e at h))
]

is_word : Text → Bool
is_word [] = true
is_word (c ∷ s) = (not (c == b'_') && not (c == b'-')) && is_word s

is_word_sound : (s : Text) → is_word s ≡ true → All IsWordUnit s
unfolding is_word
is_word_sound [] h = tt
is_word_sound (c ∷ s) h =
    let (a, b) = and-eq_true (not (c == b'_') && not (c == b'-')) (is_word s) h in
    (ground arith, is_word_sound s b)

are_words : List (Text × Text) → Bool
unfolding is_word
are_words [] = true
are_words ((k, t) ∷ rest) = is_word t && are_words rest

are_words_sound :
    (es : List (Text × Text)) (key t : Text)
    → are_words es ≡ true
    → Memᴰ (key, t) es
    → All IsWordUnit t
unfolding are_words
are_words_sound [] key t h m = elim m [ ]
are_words_sound ((k, u) ∷ rest) key t h (Memᴰ.head e) =
    subst (λ (x : Text × Text). All IsWordUnit x.1) (sym e)
      (is_word_sound u (and-eq_true (is_word u) (are_words rest) h).0)
are_words_sound ((k, u) ∷ rest) key t h (Memᴰ.tail m) =
    are_words_sound rest key t (and-eq_true (is_word u) (are_words rest) h).1 m

labels-are_words : are_words labels ≡ true
unfolding are_words labels
labels-are_words = refl

label_or_words-IsWordUnit :
    (key : Text) (o : Option Text) → entry_at labels key ≡ o → All IsWordUnit (label_or_words key o)
unfolding label_or_words
label_or_words-IsWordUnit key none e = humanise-IsWordUnit (some key)
label_or_words-IsWordUnit key (some t) e =
    are_words_sound labels key t labels-are_words (entry_at_sound labels key t e)

-- Whatever code the backend sends, the label that stands for it holds no underscore and no hyphen.
pub status_label-IsWordUnit :
    (upper : Text → Text) (status : Option Text) → All IsWordUnit (status_label upper status)
unfolding status_label is_word
status_label-IsWordUnit upper none = is_word_sound (codes "Unknown") refl
status_label-IsWordUnit upper (some []) = is_word_sound (codes "Unknown") refl
status_label-IsWordUnit upper (some (c ∷ s)) =
    label_or_words-IsWordUnit (upper (c ∷ s)) (entry_at labels (upper (c ∷ s))) refl

tone_or_neutral_cases :
    (key : Text) (o : Option BadgeTone)
    → entry_at tones key ≡ o
    → (tone_or_neutral o ≡ neutral) ⊎ Memᴰ (key, tone_or_neutral o) tones
unfolding tone_or_neutral
tone_or_neutral_cases key none e = inl refl
tone_or_neutral_cases key (some t) e = inr (entry_at_sound tones key t e)

-- A code has a colour only if the table gives it to the code in capitals: any other is neutral.
pub status_tone_listed :
    (upper : Text → Text) (status : Text)
    → (status_tone upper (some status) ≡ neutral)
      ⊎ Memᴰ (upper status, status_tone upper (some status)) tones
unfolding status_tone
status_tone_listed upper [] = inl refl
status_tone_listed upper (c ∷ s) =
    tone_or_neutral_cases (upper (c ∷ s)) (entry_at tones (upper (c ∷ s))) refl
