-- ===== src/Client/Replies.antt =====
-- What the client makes of the replies.
use fintech_innova_hack.Prelude.{
  ◌≡◌, refl, inl, inr, true, false, Option, none, some, Bool-cases, ◌↔◌,
}
use fintech_innova_hack.Prelude.Text.{Text}
use fintech_innova_hack.Json.{Json}
use fintech_innova_hack.Server.Http.{Reply}
use fintech_innova_hack.Server.Session.{is_ok}
use fintech_innova_hack.Client.{
  Browser, ApiError, Answer, value, failure, to_api_error, body_of, receive, offline,
}

-- What a call's outcome says of the reply, `none` where the API could not be reached.
pub record IsSettled (b : Browser) (r : Option Reply) (a : Answer) : Type 0 where
  pub succeeded :
      (v : Json)
      → (a ≡ value v) ↔ (
          (reply : Reply) × (r ≡ some reply)
          × (is_ok reply.status ≡ true)
          × (v ≡ body_of b reply.body))
  pub refused :
      (reply : Reply)
      → r ≡ some reply
      → is_ok reply.status ≡ false
      → (e : ApiError) × (a ≡ failure e) × (e.status ≡ reply.status)
  pub unreachable : r ≡ none → (e : ApiError) × (a ≡ failure e) × (e.status ≡ 0)

-- A call gives a value exactly if there is a reply and its status is a success; the value is then what
-- its body holds. Otherwise it fails, and the error has the reply's status, or 0 if there was none.
pub receive-IsSettled : (b : Browser) (r : Option Reply) → IsSettled b r (receive b r)
unfolding receive to_api_error offline
receive-IsSettled b none = record {
  succeeded = λ v. ((λ e. cc), (λ (reply, e, o, f). cc));
  refused = λ reply e. cc;
  unreachable = λ e. (offline, refl, refl);
}
receive-IsSettled b (some reply) = elim (Bool-cases (is_ok reply.status)) [
  | inl o ↦ rw o (record {
    succeeded = λ v. ((λ e. (reply, refl, o, (cc))), (λ (reply', e, o', f). cc));
    refused = λ reply' e bad. cc;
    unreachable = λ e. cc;
  })
  | inr o ↦ rw o (record {
    succeeded = λ v. ((λ e. cc), (λ (reply', e, o', f). cc));
    refused = λ reply' e bad. (to_api_error reply.status (body_of b reply.body), refl, (cc));
    unreachable = λ e. cc;
  })
]
