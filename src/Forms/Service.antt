-- ===== src/Forms/Service.antt =====
-- How the forms of frontend/components/onboarding call the API: `perform` is one awaited operation of
-- frontend/lib/api.ts, and `call_record` one that names a record.
pub mod Laws
use fintech_innova_hack.Prelude.{
  ℕ, ◌-◌, Bool, true, false, not, Option, none, some, List, [], ◌∷◌, ◌++◌, ◌==◌, if◌then◌else◌,
}
use fintech_innova_hack.Prelude.Text.{Text, codes, trim_start}
use fintech_innova_hack.Prelude.Int.{ℤ, pos, negsuc}
use fintech_innova_hack.Json.{
  Json, Elems, Entries, Number, null, bool, num, str, arr, obj, nil, cons, end, entry, prop,
}
use fintech_innova_hack.Format.Decimal.{span_digits, digits_value}
use fintech_innova_hack.Server.Http.{Call, Reply}
use fintech_innova_hack.Client.{Browser, ApiError, Answer, value, failure, receive, browser_call}
use fintech_innova_hack.Client.Records.{Operation, operation_call}
use fintech_innova_hack.Client.Endpoints.{Endpoint, endpoint_method, endpoint_path}
use fintech_innova_hack.Onboarding.{Thrown, error, Outcome, resolved, rejected}

-- What stands behind the browser: what each call is answered after those before it, and what the
-- engine says of a value used as what it is not. `coerce` is `String(value)` for what is no text.
pub record Service : Type 0 where
  pub answer : List Call → Call → Option Reply
  pub parse_json : Text → Option Json
  pub print_pairs : List (Text × Text) → Text
  pub fault : Text
  pub coerce : Option Json → Text

-- The browser after these calls.
abbrev pub browser_at : Service → List Call → Browser
browser_at s sent = record {
  fetch = s.answer sent;
  parse_json = s.parse_json;
  print_pairs = s.print_pairs;
}

-- An `ApiError` is an `Error` whose message is its detail.
unfoldable pub outcome_of : Answer → Outcome
outcome_of (value v) = resolved v
outcome_of (failure e) = rejected (error e.detail)

-- A call that is awaited: it is on record whether or not it is answered.
unfoldable pub perform : Service → Call → List Call → Outcome × List Call
unfolding outcome_of receive
perform s call sent =
    (outcome_of (receive (browser_at s sent) (s.answer sent call)), sent ++ call ∷ [])

-- The call that an operation without a record makes.
unfoldable pub endpoint_call : Endpoint → Option Json → Call
unfolding endpoint_method endpoint_path browser_call
endpoint_call e body = browser_call (endpoint_method e) (endpoint_path e) body

-- `${value}` in a path, and what `encodeURIComponent` is given.
unfoldable pub as_text : Service → Option Json → Text
as_text s (some (str t)) = t
as_text s v = s.coerce v

perform_some : Service → Option Call → List Call → Outcome × List Call
perform_some s none sent = (rejected (error s.fault), sent)
perform_some s (some call) sent = perform s call sent

-- An operation on a record; without a call where the encoding throws.
unfoldable pub call_record :
    Service → Operation → Option Json → Option Json → List Call → Outcome × List Call
unfolding perform_some operation_call as_text
call_record s op id body sent = perform_some s (operation_call op (as_text s id) body) sent

-- `value.key`, where the value is what a call resolved to: null has no properties.
unfoldable pub property : Json → Text → Option (Option Json)
property null key = none
property (obj es) key = some (prop es key)
property _ key = some none

-- `{ ...entries, [key]: value }`, where an undefined value is not printed.
unfoldable pub entry_some : Text → Option Json → Entries → Entries
entry_some key none es = es
entry_some key (some v) es = entry key v es

unfoldable pub natural : ℕ → Json
natural n = num (record { negative = false; mantissa = n; scale = 0 })

unfoldable pub integer : ℤ → Json
unfolding natural
integer (pos n) = natural n
integer (negsuc n) = num (record { negative = true; mantissa = ℕ.suc n; scale = 0 })

unfoldable pub texts : List Text → Elems
texts [] = nil
texts (t ∷ ts) = cons (str t) (texts ts)

negated : ℕ → ℤ
negated ℕ.zero = pos 0
negated (ℕ.suc n) = negsuc n

-- The digits after the sign; without any the result is NaN.
digits_int : Bool → Text → Option ℤ
digits_int negative [] = none
digits_int negative (d ∷ ds) =
    some (if negative then negated (digits_value 0 (d ∷ ds)) else pos (digits_value 0 (d ∷ ds)))

signed_int : Text → Option ℤ
unfolding digits_int
signed_int [] = none
signed_int (c ∷ s) =
    if c == b'-'
    then digits_int true (span_digits s).0
    else if c == b'+'
    then digits_int false (span_digits s).0
    else digits_int false (span_digits (c ∷ s)).0

-- `Number.parseInt(text, 10)`, `none` for NaN
unfoldable pub parse_int : Text → Option ℤ
unfolding signed_int negated span_digits digits_value trim_start
parse_int text = signed_int (trim_start text)
