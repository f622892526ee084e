-- ===== src/Pages/Tabs.antt =====
-- frontend/components/ui/tabs.tsx: the tab that a key moves to, and the tab whose panel is shown. The
-- focus is `none` where no tab has it, for which `indexOf` gives -1.
use fintech_innova_hack.Prelude.{
  ℕ, ◌+◌, ◌-◌, ◌%◌, ◌<◌, ◌≡◌, Option, none, some, [], zero, suc, arith, ap, ◌∙◌, ◌==◌,
  if◌then◌else◌, Bool-cases, ==_iff, inl, inr,
}
use fintech_innova_hack.Prelude.Text.{Text}

pub data Key : Type 0 where
  arrow_left arrow_right home end_key : Key

-- The index, among `n` tabs, of the one that is focused and clicked. `%` of a negative number is
-- negative: -1 % 1 is -0.
unfoldable pub next_tab : Key → Option ℕ → ℕ → ℕ
next_tab home current n = 0
next_tab end_key current n = n - 1
next_tab arrow_left none n = if n == 1 then 0 else (n - 2) % n
next_tab arrow_left (some c) n = (c + n - 1) % n
next_tab arrow_right none n = 0 % n
next_tab arrow_right (some c) n = (c + 1) % n

-- The value that decides which panel is shown: that of the owner of the tabs, if it gives one.
unfoldable pub shown_value : (controlled uncontrolled : Option Text) → Text
shown_value (some v) own = v
shown_value none (some v) = v
shown_value none none = []

-- `setUncontrolled`, where the owner gives no value.
unfoldable pub set_value : (controlled : Option Text) → Text → Option Text → Option Text
set_value none v own = some v
set_value (some w) v own = own

pub next_tab-lt : (k : Key) (current : Option ℕ) (n : ℕ) → 0 < n → next_tab k current n < n
unfolding next_tab
next_tab-lt home current n p = p
next_tab-lt end_key current n p = omega arith
next_tab-lt arrow_left none n p = grind arith
next_tab-lt arrow_left (some c) n p = grind arith
next_tab-lt arrow_right none n p = grind arith
next_tab-lt arrow_right (some c) n p = grind arith

right_inner : (c n : ℕ) → c + 1 < n → next_tab arrow_right (some c) n ≡ c + 1
unfolding next_tab
right_inner c n p = grind arith

right_last : (c n : ℕ) → c + 1 ≡ n → next_tab arrow_right (some c) n ≡ 0
unfolding next_tab
right_last c n p = grind arith

left_inner : (c n : ℕ) → c + 1 < n → next_tab arrow_left (some (c + 1)) n ≡ c
unfolding next_tab
left_inner c n p = grind arith

left_first : (c n : ℕ) → c + 1 ≡ n → next_tab arrow_left (some 0) n ≡ c
unfolding next_tab
left_first c n p = grind arith

-- The arrow to the right, so often.
unfoldable pub presses : ℕ → ℕ → ℕ → ℕ
presses zero c n = c
presses (suc k) c n = presses k (next_tab arrow_right (some c) n) n

presses_inner : (k c n : ℕ) → c + k < n → presses k c n ≡ c + k
unfolding presses
presses_inner zero c n p = omega arith
presses_inner (suc k) c n p =
    rw (right_inner c n (omega arith)) (presses_inner k (c + 1) n (omega arith) ∙ omega arith)

presses-add : (j k c n : ℕ) → presses (j + k) c n ≡ presses k (presses j c n) n
unfolding presses
presses-add zero k c n = let e : 0 + k ≡ k = omega arith in ap (λ m. presses m c n) e
presses-add (suc j) k c n =
    let e : suc j + k ≡ suc (j + k) = omega arith in
    ap (λ m. presses m c n) e ∙ presses-add j k (next_tab arrow_right (some c) n) n

presses_round : (c n d : ℕ) → c < n → d < n → presses (n - 1 - c + suc d) c n ≡ d
unfolding presses
presses_round c n d p q =
    let last : presses (n - 1 - c) c n ≡ n - 1 =
      presses_inner (n - 1 - c) c n (omega arith) ∙ omega arith in
    presses-add (n - 1 - c) (suc d) c n
    ∙ ap (λ m. presses (suc d) m n) last
    ∙ ap (λ m. presses d m n) (right_last (n - 1) n (omega arith))
    ∙ presses_inner d 0 n (omega arith)
    ∙ omega arith

left-right : (c n : ℕ) → c < n → next_tab arrow_left (some (next_tab arrow_right (some c) n)) n ≡ c
left-right c n p = elim (Bool-cases (c + 1 == n)) [
  | inl e ↦
      let last = (==_iff (c + 1) n).0 e in
      ap (λ m. next_tab arrow_left (some m) n) (right_last c n last) ∙ left_first c n last
  | inr f ↦
      let inner : c + 1 < n = ground arith in
      ap (λ m. next_tab arrow_left (some m) n) (right_inner c n inner) ∙ left_inner c n inner
]

-- From a tab that has the focus, the left arrow undoes the right one, and the right arrow, pressed often
-- enough, reaches every tab.
pub next_tab_roams :
    (c d n : ℕ)
    → c < n
    → d < n
    → (next_tab arrow_left (some (next_tab arrow_right (some c) n)) n ≡ c)
      × ((k : ℕ) × (presses k c n ≡ d))
next_tab_roams c d n p q = (left-right c n p, (n - 1 - c + suc d, presses_round c n d p q))
