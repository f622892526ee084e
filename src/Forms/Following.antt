-- ===== src/Forms/Following.antt =====
-- frontend/components/onboarding/repayment-controls.tsx: the amount's field, which follows the
-- outstanding amount until a person types.
use mathlib.Core.Path.{subst}
use fintech_innova_hack.Prelude.{
  ℕ, ◌≡◌, refl, ◌≢◌, inl, inr, Bool, true, false, ◌&&◌, not, some, List, [], ◌∷◌, All, ◌==◌, ==_iff,
  Bool-cases, if◌then◌else◌, ap, sym, ◌∙◌,
}
use fintech_innova_hack.Prelude.Text.{Text, text_eq}
use fintech_innova_hack.Prelude.Text.Laws.{text_eq_iff}
use fintech_innova_hack.Prelude.Int.{ℤ, pos, negsuc}
use fintech_innova_hack.Format.Rupees.{rupee_input_value}

-- `followed` is the amount that the field last followed.
pub record Field : Type 0 where
  pub amount : Text
  pub followed : ℤ

abbrev pub shown : ℤ → Text
shown n = rupee_input_value (some n)

int_eq : ℤ → ℤ → Bool
int_eq (pos n) (pos m) = n == m
int_eq (negsuc n) (negsuc m) = n == m
int_eq _ _ = false

-- The field when the form is first drawn.
unfoldable pub opened : ℤ → Field
opened outstanding = record { amount = shown outstanding; followed = outstanding }

-- The effect, once the outstanding amount has been fetched anew.
unfoldable pub follow : ℤ → Field → Field
unfolding int_eq text_eq rupee_input_value
follow outstanding f = record {
  amount =
      if not (int_eq f.followed outstanding) && text_eq f.amount (shown f.followed)
      then shown outstanding
      else f.amount;
  followed = outstanding;
}

-- What happens to the field: the amount is fetched anew, or a person types.
pub data Change : Type 0 where
  refetched : ℤ → Change
  typed : Text → Change

-- After a person types, the effect runs for the same outstanding amount.
unfoldable pub change : Change → Field → Field
unfolding follow
change (refetched n) f = follow n f
change (typed t) f = follow f.followed (record f { amount = t })

unfoldable pub change_all : List Change → Field → Field
unfolding change
change_all [] f = f
change_all (c ∷ cs) f = change_all cs (change c f)

int_eq_sound : (n m : ℤ) → int_eq n m ≡ true → n ≡ m
unfolding int_eq
int_eq_sound (pos n) (pos m) h = ap (λ (k : ℕ). pos k) ((==_iff n m).0 h)
int_eq_sound (negsuc n) (negsuc m) h = ap (λ (k : ℕ). negsuc k) ((==_iff n m).0 h)
int_eq_sound (pos n) (negsuc m) h = cc
int_eq_sound (negsuc n) (pos m) h = cc

int_eq_refl : (n : ℤ) → int_eq n n ≡ true
unfolding int_eq
int_eq_refl (pos n) = (==_iff n n).1 refl
int_eq_refl (negsuc n) = (==_iff n n).1 refl

follow_shown : (n : ℤ) (f : Field) → f.amount ≡ shown f.followed → (follow n f).amount ≡ shown n
unfolding follow
follow_shown n f e = elim (Bool-cases (int_eq f.followed n)) [
  | inl same ↦ rw same (e ∙ ap shown (int_eq_sound f.followed n same))
  | inr differ ↦ rw (differ, (text_eq_iff f.amount (shown f.followed)).1 e) refl
]

follow_other : (n : ℤ) (f : Field) → f.amount ≢ shown f.followed → (follow n f).amount ≡ f.amount
unfolding follow
follow_other n f d = elim (Bool-cases (text_eq f.amount (shown f.followed))) [
  | inl same ↦ absurd (d ((text_eq_iff f.amount (shown f.followed)).0 same))
  | inr differ ↦ elim (Bool-cases (int_eq f.followed n)) [
    | inl e ↦ rw e refl
    | inr e ↦ rw (e, differ) refl
  ]
]

follow_same : (f : Field) → (follow f.followed f).amount ≡ f.amount
unfolding follow
follow_same f = rw (int_eq_refl f.followed) refl

abbrev pub refetches : List ℤ → List Change
refetches [] = []
refetches (n ∷ ns) = refetched n ∷ refetches ns

abbrev pub latest : ℤ → List ℤ → ℤ
latest n [] = n
latest n (m ∷ ns) = latest m ns

follow-latest :
    (ns : List ℤ) (f : Field)
    → f.amount ≡ shown f.followed
    → (change_all (refetches ns) f).amount ≡ shown (latest f.followed ns)
unfolding change_all change
follow-latest [] f e = e
follow-latest (n ∷ ns) f e = follow-latest ns (follow n f) (follow_shown n f e)

-- While nobody types, the field shows the outstanding amount that was fetched last.
pub opened-latest :
    (n : ℤ) (ns : List ℤ) → (change_all (refetches ns) (opened n)).amount ≡ shown (latest n ns)
unfolding opened
opened-latest n ns = follow-latest ns (opened n) refl

kept :
    (ns : List ℤ) (f : Field)
    → f.amount ≢ shown f.followed
    → All (λ n. f.amount ≢ shown n) ns
    → (change_all (refetches ns) f).amount ≡ f.amount
unfolding change_all change
kept [] f d h = refl
kept (n ∷ ns) f d (e, h) =
    let same = follow_other n f d in
    kept ns (follow n f) (λ q. e (sym same ∙ q))
      (subst (λ a. All (λ m. a ≢ shown m) ns) (sym same) h)
    ∙ same

-- A text that is typed is never overwritten, however often the outstanding amount is fetched anew and
-- whatever happened before, if it is none of the amounts that the field follows.
pub typed_kept :
    (f : Field) (t : Text) (ns : List ℤ)
    → t ≢ shown f.followed
    → All (λ n. t ≢ shown n) ns
    → (change_all (typed t ∷ refetches ns) f).amount ≡ t
unfolding change_all change
typed_kept f t ns d h =
    let g : Field = record f { amount = t } in
    let same : (follow g.followed g).amount ≡ t = follow_same g in
    kept ns (follow g.followed g) (λ q. d (sym same ∙ q))
      (subst (λ a. All (λ m. a ≢ shown m) ns) (sym same) h)
    ∙ same
