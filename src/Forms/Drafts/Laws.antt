-- ===== src/Forms/Drafts/Laws.antt =====
-- What stays true of the evidence entries however they are edited.
use fintech_innova_hack.Prelude.{
  ℕ, suc, ◌≤◌, ◌≡◌, refl, ◌≢◌, Bool, not, List, [], ◌∷◌, ◌++◌, map, keep, arith, ltb, ltb→lt,
  length, length-append, All, All-append, Bool-cases, inl, inr, ◌==◌, ==_iff,
}
use fintech_innova_hack.Prelude.Members.{length-map, keep-true, keep-false}
use fintech_innova_hack.Prelude.Text.{codes}
use fintech_innova_hack.Forms.Drafts.{
  Draft, Drafts, new_draft, first_drafts, retype, Edit, redraw, add, choose_type, type_text, remove,
  at_key, edit, edit_all,
}

-- No two drafts have one key.
abbrev pub HaveOwnKeys : List Draft → Type 0
HaveOwnKeys [] = Unit
HaveOwnKeys (d ∷ ds) = All (λ e. e.key ≢ d.key) ds × HaveOwnKeys ds

-- The keys are distinct, none is above the sequence number, and there is an entry.
pub record IsSound (s : Drafts) : Type 0 where
  pub distinct : HaveOwnKeys s.drafts
  pub below : All (λ d. d.key ≤ s.seq) s.drafts
  pub present : 1 ≤ length s.drafts

module _ (f : Draft → Draft) (keeps : (d : Draft) → (f d).key ≡ d.key) where
  map-All :
      (P : ℕ → Type 0) (ds : List Draft) → All (λ d. P d.key) ds → All (λ d. P d.key) (map f ds)
  map-All P [] h = tt
  map-All P (d ∷ ds) (p, h) = (rw (keeps d) p, map-All P ds h)

  map-HaveOwnKeys : (ds : List Draft) → HaveOwnKeys ds → HaveOwnKeys (map f ds)
  map-HaveOwnKeys [] h = tt
  map-HaveOwnKeys (d ∷ ds) (a, h) =
      (rw (keeps d) (map-All (λ k. k ≢ d.key) ds a), map-HaveOwnKeys ds h)

  map-IsSound : (s : Drafts) → IsSound s → IsSound (record s { drafts = map f s.drafts })
  map-IsSound s h = record {
    distinct = map-HaveOwnKeys s.drafts h.distinct;
    below = map-All (λ k. k ≤ s.seq) s.drafts h.below;
    present = rw (length-map f s.drafts) h.present;
  }

at_key-keeps :
    (key : ℕ) (f : Draft → Draft)
    → ((d : Draft) → (f d).key ≡ d.key)
    → (d : Draft) → (at_key key f d).key ≡ d.key
unfolding at_key
at_key-keeps key f keeps d = elim (Bool-cases (d.key == key)) [
  | inl e ↦ rw e (keeps d)
  | inr e ↦ rw e refl
]

keep-All : (p : Draft → Bool) (P : Draft → Type 0) (ds : List Draft) → All P ds → All P (keep p ds)
keep-All p P [] h = tt
keep-All p P (d ∷ ds) (q, h) = elim (Bool-cases (p d)) [
  | inl e ↦ rw (keep-true p d ds e) (q, keep-All p P ds h)
  | inr e ↦ rw (keep-false p d ds e) (keep-All p P ds h)
]

keep-HaveOwnKeys : (p : Draft → Bool) (ds : List Draft) → HaveOwnKeys ds → HaveOwnKeys (keep p ds)
keep-HaveOwnKeys p [] h = tt
keep-HaveOwnKeys p (d ∷ ds) (a, h) = elim (Bool-cases (p d)) [
  | inl e ↦ rw (keep-true p d ds e) (keep-All p (λ x. x.key ≢ d.key) ds a, keep-HaveOwnKeys p ds h)
  | inr e ↦ rw (keep-false p d ds e) (keep-HaveOwnKeys p ds h)
]

-- What is left of a list from which one key is removed: all of it, if the key is not there.
keep_absent :
    (k : ℕ) (ds : List Draft)
    → All (λ d. d.key ≢ k) ds
    → length (keep (λ d. not (d.key == k)) ds) ≡ length ds
keep_absent k [] h = refl
keep_absent k (d ∷ ds) (n, h) = ground (arith, ==_iff d.key k, keep_absent k ds h)

All-key :
    (k : ℕ) (d : Draft) (ds : List Draft)
    → d.key ≡ k
    → All (λ e. e.key ≢ d.key) ds
    → All (λ e. e.key ≢ k) ds
All-key k d [] e h = tt
All-key k d (x ∷ ds) e (n, h) = ((λ q. n (cc)), All-key k d ds e h)

-- One entry at most is removed.
length-keep :
    (k : ℕ) (ds : List Draft)
    → HaveOwnKeys ds
    → length ds ≤ suc (length (keep (λ d. not (d.key == k)) ds))
length-keep k [] h = omega arith
length-keep k (d ∷ ds) (a, h) = elim (Bool-cases (d.key == k)) [
  | inl e ↦
      rw (keep-false (λ d. not (d.key == k)) d ds (rw e refl))
        (omega (arith, keep_absent k ds (All-key k d ds ((==_iff d.key k).0 e) a)))
  | inr e ↦
      rw (keep-true (λ d. not (d.key == k)) d ds (rw e refl)) (omega (arith, length-keep k ds h))
]

weaken : (n : ℕ) (ds : List Draft) → All (λ d. d.key ≤ n) ds → All (λ d. d.key ≤ suc n) ds
weaken n [] a = tt
weaken n (d ∷ ds) (p, a) = (omega arith, weaken n ds a)

grow : (n : ℕ) (ds : List Draft) → All (λ d. d.key ≤ n) ds → All (λ d. suc n ≢ d.key) ds
grow n [] a = tt
grow n (d ∷ ds) (p, a) = ((λ e. omega arith), grow n ds a)

append-HaveOwnKeys :
    (ds : List Draft) (x : Draft)
    → HaveOwnKeys ds
    → All (λ d. x.key ≢ d.key) ds
    → HaveOwnKeys (ds ++ x ∷ [])
append-HaveOwnKeys [] x a b = (tt, tt)
append-HaveOwnKeys (d ∷ ds) x (a, r) (n, b) =
    (All-append (λ e. e.key ≢ d.key) ds (x ∷ []) a (n, tt), append-HaveOwnKeys ds x r b)

edit-IsSound : (e : Edit) (s : Drafts) → IsSound s → IsSound (edit e s)
unfolding edit retype new_draft
edit-IsSound (choose_type key kind) s h =
    map-IsSound (at_key key (retype kind)) (at_key-keeps key (retype kind) (λ d. refl)) s h
edit-IsSound (type_text key text) s h =
    map-IsSound (at_key key (λ d. record d { content_text = text }))
      (at_key-keeps key (λ d. record d { content_text = text }) (λ d. refl)) s h
edit-IsSound (remove key) s h = elim (Bool-cases (ltb 1 (length s.drafts))) [
  | inr e ↦ rw e h
  | inl e ↦ rw e (record {
    distinct = keep-HaveOwnKeys (λ d. not (d.key == key)) s.drafts h.distinct;
    below = keep-All (λ d. not (d.key == key)) (λ d. d.key ≤ s.seq) s.drafts h.below;
    present = omega (arith, ltb→lt 1 (length s.drafts) e, length-keep key s.drafts h.distinct);
  })
]
edit-IsSound redraw s h = record {
  distinct = h.distinct;
  below = weaken s.seq s.drafts h.below;
  present = h.present;
}
edit-IsSound add s h = record {
  distinct = append-HaveOwnKeys s.drafts _ h.distinct (grow s.seq s.drafts h.below);
  below =
      All-append (λ d. d.key ≤ suc s.seq) s.drafts _ (weaken s.seq s.drafts h.below)
        (omega arith, tt);
  present =
      omega (arith, length-append s.drafts (new_draft s.seq (codes "PRIOR_TASK_OUTCOME") ∷ []));
}

edit_all-IsSound_from : (es : List Edit) (s : Drafts) → IsSound s → IsSound (edit_all es s)
unfolding edit_all
edit_all-IsSound_from [] s h = h
edit_all-IsSound_from (e ∷ es) s h = edit_all-IsSound_from es (edit e s) (edit-IsSound e s h)

-- However the entries of a form are edited, there is at least one, and no two have the same key.
pub edit_all-IsSound : (seq : ℕ) (es : List Edit) → IsSound (edit_all es (first_drafts seq))
unfolding first_drafts new_draft
edit_all-IsSound seq es =
    edit_all-IsSound_from es (first_drafts seq)
      (record { distinct = (tt, tt); below = (omega arith, tt); present = omega arith })
