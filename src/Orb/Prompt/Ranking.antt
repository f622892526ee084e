-- ===== src/Orb/Prompt/Ranking.antt =====
-- How the facts are ranked for a question.
use mathlib.Core.List.{Memᴰ}
use mathlib.Core.Path.{subst}
use fintech_innova_hack.Prelude.{
  ℕ, zero, suc, ◌≤◌, ◌<◌, ◌≡◌, refl, ◌⊎◌, inl, inr, sym, ap, ◌∙◌, true, List, [], ◌∷◌, keep, take,
  ltb, ltb→lt, leb, All, arith, Bool-cases,
}
use fintech_innova_hack.Prelude.Members.{
  Memᴰ-keep, keep-Memᴰ, Memᴰ-take, Memᴰ-map, map-Memᴰ, All_intro, All_elim,
}
use fintech_innova_hack.Prelude.Text.{Text}
use fintech_innova_hack.Orb.Facts.{Fact, facts}
use fintech_innova_hack.Orb.Prompt.{Scored, score, scored, insert, sort, ranked, chosen}

insert_cases :
    (x y : Scored) (ys : List Scored)
    → (insert x (y ∷ ys) ≡ x ∷ y ∷ ys) × (y.points ≤ x.points)
      ⊎ (insert x (y ∷ ys) ≡ y ∷ insert x ys) × (x.points ≤ y.points)
unfolding insert
insert_cases x y ys = elim (Bool-cases (leb y.points x.points)) [
  | inl e ↦ inl (rw e refl, ground arith)
  | inr e ↦ inr (rw e refl, ground arith)
]

All-insert :
    (P : Scored → Type 0) (x : Scored) (ys : List Scored) → P x → All P ys → All P (insert x ys)
unfolding insert
All-insert P x [] p h = (p, tt)
All-insert P x (y ∷ ys) p (q, h) = elim (insert_cases x y ys) [
  | inl (e, _) ↦ subst (λ l. All P l) (sym e) (p, (q, h))
  | inr (e, _) ↦ subst (λ l. All P l) (sym e) (q, All-insert P x ys p h)
]

All-sort : (P : Scored → Type 0) (xs : List Scored) → All P xs → All P (sort xs)
unfolding sort
All-sort P [] h = tt
All-sort P (x ∷ xs) (p, h) = All-insert P x (sort xs) p (All-sort P xs h)

insert_here : (x : Scored) (ys : List Scored) → Memᴰ x (insert x ys)
unfolding insert
insert_here x [] = Memᴰ.head refl
insert_here x (y ∷ ys) = elim (insert_cases x y ys) [
  | inl (e, _) ↦ subst (λ l. Memᴰ x l) (sym e) (Memᴰ.head refl)
  | inr (e, _) ↦ subst (λ l. Memᴰ x l) (sym e) (Memᴰ.tail (insert_here x ys))
]

insert_there : (z x : Scored) (ys : List Scored) → Memᴰ z ys → Memᴰ z (insert x ys)
unfolding insert
insert_there z x [] m = elim m [ ]
insert_there z x (y ∷ ys) (Memᴰ.head h) = elim (insert_cases x y ys) [
  | inl (e, _) ↦ subst (λ l. Memᴰ z l) (sym e) (Memᴰ.tail (Memᴰ.head h))
  | inr (e, _) ↦ subst (λ l. Memᴰ z l) (sym e) (Memᴰ.head h)
]
insert_there z x (y ∷ ys) (Memᴰ.tail m) = elim (insert_cases x y ys) [
  | inl (e, _) ↦ subst (λ l. Memᴰ z l) (sym e) (Memᴰ.tail (Memᴰ.tail m))
  | inr (e, _) ↦ subst (λ l. Memᴰ z l) (sym e) (Memᴰ.tail (insert_there z x ys m))
]

sort-Memᴰ : (z : Scored) (xs : List Scored) → Memᴰ z xs → Memᴰ z (sort xs)
unfolding sort
sort-Memᴰ z [] m = elim m [ ]
sort-Memᴰ z (x ∷ xs) (Memᴰ.head h) =
    subst (λ y. Memᴰ y (insert x (sort xs))) (sym h) (insert_here x (sort xs))
sort-Memᴰ z (x ∷ xs) (Memᴰ.tail m) = insert_there z x (sort xs) (sort-Memᴰ z xs m)

-- The points go down the list.
abbrev Descends : List Scored → Type 0
Descends [] = Unit
Descends (x ∷ xs) = All (λ y. y.points ≤ x.points) xs × Descends xs

insert-Descends : (x : Scored) (ys : List Scored) → Descends ys → Descends (insert x ys)
unfolding insert
insert-Descends x [] h = (tt, tt)
insert-Descends x (y ∷ ys) (a, h) = elim (insert_cases x y ys) [
  | inl (e, le) ↦ subst Descends (sym e) (
    (
      le,
      All_intro (λ z. z.points ≤ x.points) ys
          (λ z m. let below = All_elim (λ z. z.points ≤ y.points) ys a z m in omega arith),
    ),
    (a, h),
  )
  | inr (e, le) ↦
      subst Descends (sym e)
        (All-insert (λ z. z.points ≤ y.points) x ys le a, insert-Descends x ys h)
]

sort-Descends : (xs : List Scored) → Descends (sort xs)
unfolding sort
sort-Descends [] = tt
sort-Descends (x ∷ xs) = insert-Descends x (sort xs) (sort-Descends xs)

-- The first entries of such a list are its best.
take_best :
    (n : ℕ) (x : Scored) (xs : List Scored)
    → Descends xs
    → Memᴰ x xs
    → Memᴰ x (take n xs) ⊎ All (λ y. x.points ≤ y.points) (take n xs)
take_best zero x xs h m = inr tt
take_best (suc n) x [] h m = elim m [ ]
take_best (suc n) x (y ∷ ys) h (Memᴰ.head e) = inl (Memᴰ.head e)
take_best (suc n) x (y ∷ ys) (a, h) (Memᴰ.tail m) = elim (take_best n x ys h m) [
  | inl k ↦ inl (Memᴰ.tail k)
  | inr b ↦ inr (All_elim (λ z. z.points ≤ y.points) ys a x m, b)
]

ranked-Memᴰ : (q : Text) (s : Scored) → Memᴰ s (ranked q) → Memᴰ s (scored q) × (0 < s.points)
unfolding ranked
ranked-Memᴰ q s m =
    let kept =
      All-sort (λ z. Memᴰ z (scored q) × (ltb 0 z.points ≡ true))
        (keep (λ z. ltb 0 z.points) (scored q))
        (All_intro _ _ (λ z n. Memᴰ-keep (λ z. ltb 0 z.points) z (scored q) n)) in
    let (here, positive) =
      All_elim (λ z. Memᴰ z (scored q) × (ltb 0 z.points ≡ true)) (ranked q) kept s m in
    (here, ltb→lt 0 s.points positive)

scored-Memᴰ :
    (q : Text) (s : Scored) → Memᴰ s (scored q) → Memᴰ s.fact facts × (s.points ≡ score q s.fact)
unfolding scored
scored-Memᴰ q s m =
    let (f, n, e) = Memᴰ-map (λ f. record { fact = f; points = score q f }) s facts m in
    (
      subst (λ g. Memᴰ g facts) (sym (ap (λ (z : Scored). z.fact) e)) n,
      ap (λ (z : Scored). z.points) e ∙ ap (λ (z : Scored). score q z.fact) (sym e),
    )

-- A fact that is chosen has a word of the question.
pub chosen-Memᴰ : (q : Text) (f : Fact) → Memᴰ f (chosen q) → Memᴰ f facts × (0 < score q f)
unfolding chosen
chosen-Memᴰ q f m =
    let (s, n, e) = Memᴰ-map (λ (s : Scored). s.fact) f (take 4 (ranked q)) m in
    let (there, positive) = ranked-Memᴰ q s (Memᴰ-take 4 s (ranked q) n) in
    let (known, points) = scored-Memᴰ q s there in
    (subst (λ g. Memᴰ g facts) (sym e) known, rw (e, sym points) positive)

-- Of the facts that have a word of the question, those that are not chosen have no more such words
-- than any that is.
pub chosen_best :
    (q : Text) (f : Fact)
    → Memᴰ f facts
    → 0 < score q f
    → Memᴰ f (chosen q) ⊎ All (λ g. score q f ≤ score q g) (chosen q)
unfolding chosen scored ranked
chosen_best q f known positive =
    let s : Scored = record { fact = f; points = score q f } in
    let there : Memᴰ s (ranked q) = sort-Memᴰ s _ (
      keep-Memᴰ (λ z. ltb 0 z.points) s (scored q)
        (map-Memᴰ (λ f. record { fact = f; points = score q f }) f facts known) (ground arith)) in
    elim (take_best 4 s (ranked q) (sort-Descends (keep (λ z. ltb 0 z.points) (scored q))) there) [
      | inl m ↦ inl (map-Memᴰ (λ (s : Scored). s.fact) s (take 4 (ranked q)) m)
      | inr a ↦ inr (
          All_intro (λ g. score q f ≤ score q g) (chosen q)
            (λ g m.
              let (z, n, e) = Memᴰ-map (λ (s : Scored). s.fact) g (take 4 (ranked q)) m in
              let least =
                All_elim (λ (y : Scored). score q f ≤ y.points) (take 4 (ranked q)) a z n in
              let (here, _) = ranked-Memᴰ q z (Memᴰ-take 4 z (ranked q) n) in
              rw e (rw (sym (scored-Memᴰ q z here).1) least)))
    ]
