-- ===== src/Forms/Agent/Laws.antt =====
-- What the form for an agent accepts, and what a registration has done.
use fintech_innova_hack.Prelude.{ℕ, ◌≤◌, ◌≡◌, ◌≢◌, ◌↔◌, true, false, some, [], length}
use fintech_innova_hack.Prelude.Text.{codes, trim}
use fintech_innova_hack.Prelude.Int.{pos}
use fintech_innova_hack.Format.Rupees.{rupee_input_to_minor}
use fintech_innova_hack.Forms.Service.{parse_int}
use fintech_innova_hack.Forms.Checks.{
  when_iff, or_when_iff, no_problem_iff, is_none_iff, is_nil_iff, ltb-false_iff, out_of_hours_iff,
}
use fintech_innova_hack.Forms.Agent.{Fields, max_ttl_hours, exceeds, problems, ready}

-- The fields of a form that may be sent.
pub record IsComplete (f : Fields) : Type 0 where
  pub named : 2 ≤ length (trim f.name)
  pub model : trim f.model_name ≢ []
  pub version : trim f.version_hash ≢ []
  pub purposeful : 4 ≤ length (trim f.purpose)
  pub scoped : f.categories ≢ []
  pub borrowing : ℕ
  pub borrowing_read : rupee_input_to_minor f.borrowing_limit ≡ some borrowing
  pub per : ℕ
  pub per_read : rupee_input_to_minor f.per_transaction ≡ some per
  pub bounded : per ≤ borrowing
  pub hours : ℕ
  pub hours_read : parse_int f.ttl_hours ≡ some (pos hours)
  pub hours_least : 1 ≤ hours
  pub hours_most : hours ≤ 24

exceeds_within : (per limit : ℕ) → exceeds (some per) (some limit) ≡ false → per ≤ limit
unfolding exceeds
exceeds_within per limit e = (ltb-false_iff limit per).0 e

within_exceeds : (per limit : ℕ) → per ≤ limit → exceeds (some per) (some limit) ≡ false
unfolding exceeds
within_exceeds per limit h = (ltb-false_iff limit per).1 h

-- The form may be sent exactly if its fields are complete.
pub registration_ready_iff : (f : Fields) → (ready f ≡ true) ↔ IsComplete f
unfolding ready problems
registration_ready_iff f = (
  λ e.
      let (name, (model, (version, (purpose, (scope, (limit, (payment, (hours, _)))))))) =
        (no_problem_iff (problems f)).0 e in
      let (borrowing, b) = (is_none_iff _).0 ((when_iff _ _).0 limit) in
      let (within, paid) =
        (or_when_iff
            (exceeds (rupee_input_to_minor f.per_transaction)
              (rupee_input_to_minor f.borrowing_limit))
            (codes "A single payment cannot exceed the total borrowing authority.") _).0
          payment in
      let (per, q) =
        (is_none_iff (rupee_input_to_minor f.per_transaction)).0
          ((when_iff _ (codes "Enter an amount in rupees, above zero.")).0 paid) in
      let (h, r, least, most) = (out_of_hours_iff max_ttl_hours _).0 ((when_iff _ _).0 hours) in
      record {
        named = (ltb-false_iff _ _).0 ((when_iff _ _).0 name);
        model = (is_nil_iff _).0 ((when_iff _ _).0 model);
        version = (is_nil_iff _).0 ((when_iff _ _).0 version);
        purposeful = (ltb-false_iff _ _).0 ((when_iff _ _).0 purpose);
        scoped = (is_nil_iff _).0 ((when_iff _ _).0 scope);
        borrowing = borrowing;
        borrowing_read = b;
        per = per;
        per_read = q;
        bounded = exceeds_within per borrowing (rw (q, b) at within);
        hours = h;
        hours_read = r;
        hours_least = least;
        hours_most = most;
      },
  λ c. (no_problem_iff (problems f)).1 (
    (when_iff _ _).1 ((ltb-false_iff _ _).1 c.named),
    (
      (when_iff _ _).1 ((is_nil_iff _).1 c.model),
      (
        (when_iff _ _).1 ((is_nil_iff _).1 c.version),
        (
          (when_iff _ _).1 ((ltb-false_iff _ _).1 c.purposeful),
          (
            (when_iff _ _).1 ((is_nil_iff _).1 c.scoped),
            (
              (when_iff _ _).1 ((is_none_iff _).1 (c.borrowing, c.borrowing_read)),
              (
                (or_when_iff _ _ _).1 (
                  rw (c.per_read, c.borrowing_read) (within_exceeds c.per c.borrowing c.bounded),
                  (when_iff _ _).1 ((is_none_iff _).1 (c.per, c.per_read)),
                ),
                (
                  (when_iff _ _).1 (
                      (out_of_hours_iff max_ttl_hours _).1
                        (c.hours, c.hours_read, c.hours_least, c.hours_most)),
                  tt,
                ),
              ),
            ),
          ),
        ),
      ),
    ),
  ),
)
