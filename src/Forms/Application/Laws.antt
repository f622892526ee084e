-- ===== src/Forms/Application/Laws.antt =====
-- What the form for a credit application accepts.
use fintech_innova_hack.Prelude.{
  ℕ, ◌≤◌, ◌≡◌, refl, ◌≢◌, ◌↔◌, Bool, true, false, not, ◌||◌, none, some, List, [], ◌∷◌, any, All,
  length,
}
use fintech_innova_hack.Prelude.Text.{Text, codes, trim}
use fintech_innova_hack.Prelude.Int.{pos}
use fintech_innova_hack.Format.Rupees.{rupee_input_to_minor}
use fintech_innova_hack.Forms.Service.{parse_int}
use fintech_innova_hack.Forms.Checks.{
  when, is_none, when_iff, or_when_iff, no_problem_iff, is_none_iff, is_nil_iff, ltb-false_iff,
  out_of_hours_iff,
}
use fintech_innova_hack.Forms.Drafts.{Draft}
use fintech_innova_hack.Forms.Application.{
  Fields, is_blank, is_long, max_duration_hours, problems, ready,
}

-- An amount that is read from its field.
abbrev pub IsRead : Text → Type 0
IsRead text = (n : ℕ) × (rupee_input_to_minor text ≡ some n)

-- A piece of evidence that may be stored.
abbrev pub IsStorable : Draft → Type 0
IsStorable d = (trim d.content_text ≢ []) × (length d.content_text ≤ 20000)

-- The fields of a form that may be sent.
pub record IsComplete (f : Fields) : Type 0 where
  pub agent : f.agent_id ≢ []
  pub titled : 3 ≤ length (trim f.title)
  pub requested : IsRead f.requested
  pub cost : IsRead f.expected_cost
  pub revenue : IsRead f.expected_revenue
  pub reserve : IsRead f.reserve_cap
  pub owner_cap : IsRead f.owner_cap
  pub hours : ℕ
  pub hours_read : parse_int f.duration_hours_text ≡ some (pos hours)
  pub hours_least : 1 ≤ hours
  pub hours_most : hours ≤ 720
  pub authorised : f.owner_authorised ≡ true
  pub evidenced : f.drafts ≢ []
  pub storable : All IsStorable f.drafts

none_iff {ℓ κ} :
    {A : Type ℓ} (p : A → Bool) (P : A → Type κ)
    → ((x : A) → (p x ≡ false) ↔ P x)
    → (xs : List A) → (any p xs ≡ false) ↔ All P xs
none_iff p P h [] = ((λ e. tt), (λ e. refl))
none_iff p P h (x ∷ xs) = (
  λ e. let (q, r) = or_false (p x) (any p xs) e in ((h x).0 q, (none_iff p P h xs).0 r),
  λ (q, r). rw ((h x).1 q, (none_iff p P h xs).1 r) refl,
)
  where
    or_false : (a b : Bool) → (a || b) ≡ false → (a ≡ false) × (b ≡ false)
    or_false true b e = absurd (cc e)
    or_false false b e = (refl, e)

IsStorable-both :
    (ds : List Draft)
    → All (λ d. trim d.content_text ≢ []) ds
    → All (λ d. length d.content_text ≤ 20000) ds
    → All IsStorable ds
IsStorable-both [] a b = tt
IsStorable-both (d ∷ ds) (p, a) (q, b) = ((p, q), IsStorable-both ds a b)

storable_parts :
    (ds : List Draft)
    → All IsStorable ds
    → All (λ d. trim d.content_text ≢ []) ds × All (λ d. length d.content_text ≤ 20000) ds
storable_parts [] h = (tt, tt)
storable_parts (d ∷ ds) ((p, q), h) = let (a, b) = storable_parts ds h in ((p, a), (q, b))

blank_iff : (ds : List Draft) → (any is_blank ds ≡ false) ↔ All (λ d. trim d.content_text ≢ []) ds
blank_iff ds =
    none_iff is_blank (λ d. trim d.content_text ≢ []) (λ d. is_nil_iff (trim d.content_text)) ds

long_iff :
    (ds : List Draft) → (any is_long ds ≡ false) ↔ All (λ d. length d.content_text ≤ 20000) ds
long_iff ds =
    none_iff is_long (λ d. length d.content_text ≤ 20000)
      (λ d. ltb-false_iff 20000 (length d.content_text)) ds

not_iff : (b : Bool) → (not b ≡ false) ↔ (b ≡ true)
not_iff true = ((λ e. refl), (λ e. refl))
not_iff false = ((λ e. cc), (λ e. cc))

IsRead-iff :
    (text sentence : Text)
    → (when (is_none (rupee_input_to_minor text)) sentence ≡ none) ↔ IsRead text
IsRead-iff text sentence = (
  λ e. (is_none_iff (rupee_input_to_minor text)).0 ((when_iff _ sentence).0 e),
  λ r. (when_iff _ sentence).1 ((is_none_iff (rupee_input_to_minor text)).1 r),
)

-- The form may be sent exactly if its fields are complete.
pub application_ready_iff : (f : Fields) → (ready f ≡ true) ↔ IsComplete f
unfolding ready problems
application_ready_iff f = (
  λ e.
      let (
        agent,
        (
          title,
          (requested, (cost, (revenue, (reserve, (owner, (hours, (owned, (evidence, _)))))))),
        ),
      ) =
        (no_problem_iff (problems f)).0 e in
      let (h, r, least, most) =
        (out_of_hours_iff max_duration_hours _).0 ((when_iff _ _).0 hours) in
      let (short, more) =
        (or_when_iff (any is_long f.drafts) (codes "Evidence is limited to 20,000 characters each.")
            _).0
          evidence in
      let (filled, attached) =
        (or_when_iff (any is_blank f.drafts)
            (codes "Every evidence entry needs text, or remove it.") _).0
          more in
      record {
        agent = (is_nil_iff _).0 ((when_iff _ _).0 agent);
        titled = (ltb-false_iff _ _).0 ((when_iff _ _).0 title);
        requested = (IsRead-iff f.requested _).0 requested;
        cost = (IsRead-iff f.expected_cost _).0 cost;
        revenue = (IsRead-iff f.expected_revenue _).0 revenue;
        reserve = (IsRead-iff f.reserve_cap _).0 reserve;
        owner_cap = (IsRead-iff f.owner_cap _).0 owner;
        hours = h;
        hours_read = r;
        hours_least = least;
        hours_most = most;
        authorised = (not_iff _).0 ((when_iff _ _).0 owned);
        evidenced =
            (is_nil_iff f.drafts).0
              ((when_iff _ (codes "Attach at least one piece of evidence.")).0 attached);
        storable =
            IsStorable-both f.drafts ((blank_iff f.drafts).0 filled) ((long_iff f.drafts).0 short);
      },
  λ c.
      let (filled, short) = storable_parts f.drafts c.storable in
      (no_problem_iff (problems f)).1 (
        (when_iff _ _).1 ((is_nil_iff _).1 c.agent),
        (
          (when_iff _ _).1 ((ltb-false_iff _ _).1 c.titled),
          (
            (IsRead-iff f.requested _).1 c.requested,
            (
              (IsRead-iff f.expected_cost _).1 c.cost,
              (
                (IsRead-iff f.expected_revenue _).1 c.revenue,
                (
                  (IsRead-iff f.reserve_cap _).1 c.reserve,
                  (
                    (IsRead-iff f.owner_cap _).1 c.owner_cap,
                    (
                      (when_iff _ _).1 (
                          (out_of_hours_iff max_duration_hours _).1
                            (c.hours, c.hours_read, c.hours_least, c.hours_most)),
                      (
                        (when_iff _ _).1 ((not_iff _).1 c.authorised),
                        (
                          (or_when_iff _ _ _).1 (
                            (long_iff f.drafts).1 short,
                            (or_when_iff _ _ _).1 (
                              (blank_iff f.drafts).1 filled,
                              (when_iff _ _).1 ((is_nil_iff _).1 c.evidenced),
                            ),
                          ),
                          tt,
                        ),
                      ),
                    ),
                  ),
                ),
              ),
            ),
          ),
        ),
      ),
)
