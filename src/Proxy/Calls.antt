-- ===== src/Proxy/Calls.antt =====
-- What the proxy sends to the API.
use mathlib.Core.List.{append_assoc, append-nil}
use fintech_innova_hack.Prelude.{
  ◌≤◌, ◌≡◌, ◌≢◌, refl, sym, ap, ◌∙◌, ◌⊎◌, inl, inr, true, false, none, some, List, [], ◌∷◌, ◌++◌,
  arith, All, length, Option-cases, Bool-cases, ◌==◌, ==_iff,
}
use fintech_innova_hack.Prelude.Text.{Text}
use fintech_innova_hack.Server.Http.{Call, Reply, Result, ok, err, Platform, State, M, after, fetch}
use fintech_innova_hack.Server.Session.{
  Session, mint_call, existing, resolve_session, clear_session,
}
use fintech_innova_hack.Server.Session.Laws.{fetch-sent, resolve-sent, resolve_session-IsResolved}
use fintech_innova_hack.Proxy.{
  Request, refusal, forward_call, forward, renew, attempt, serve, proxy, visitor,
}
use fintech_innova_hack.Proxy.Guards.{IsPermitted, refusal_iff}

-- A call that the proxy may make while it serves the request.
pub data IsAllowed (p : Platform) (req : Request) : Call → Type 0 where
  minting : (sent : List Call) → IsAllowed p req (mint_call p sent)
  forwarding : (token : Text) → IsPermitted p req → IsAllowed p req (forward_call p req token)

-- The calls of seeking a session and sending the request under it, after the calls `b`. There is no
-- mint where another request's is joined, and nothing is sent where there is no session.
pub data IsOpening (p : Platform) (req : Request) (b : List Call) : List Call → Type 0 where
  nothing : IsOpening p req b []
  minted : IsOpening p req b (mint_call p b ∷ [])
  joined : (token : Text) → IsOpening p req b (forward_call p req token ∷ [])
  founded : (token : Text) → IsOpening p req b (mint_call p b ∷ forward_call p req token ∷ [])

-- The calls of a request that finds the state `s`.
pub data IsCourse (p : Platform) (req : Request) (s : State) : List Call → Type 0 where
  turned_away : (IsPermitted p req → ⊥) → IsCourse p req s []
  newcomer :
      {calls : List Call}
      → IsPermitted p req
      → existing s ≡ none
      → IsOpening p req s.sent calls
      → IsCourse p req s calls
  kept_on :
      (token : Text)
      → IsPermitted p req
      → existing s ≡ some token
      → ((reply : Reply)
          → p.backend s.sent (forward_call p req token) ≡ some reply
          → reply.status ≢ 401)
      → IsCourse p req s (forward_call p req token ∷ [])
  retried :
      {calls : List Call} (token : Text) (reply : Reply)
      → IsPermitted p req
      → existing s ≡ some token
      → p.backend s.sent (forward_call p req token) ≡ some reply
      → reply.status ≡ 401
      → IsOpening p req (s.sent ++ forward_call p req token ∷ []) calls
      → IsCourse p req s (forward_call p req token ∷ calls)

-- From one state to another these calls were made.
pub record Exchange (p : Platform) (req : Request) (s s' : State) : Type 0 where
  pub calls : List Call
  pub grown : s'.sent ≡ s.sent ++ calls
  pub course : IsCourse p req s calls
  pub few : length calls ≤ 3

abbrev pub sending : State → Call → State
sending s c = record s { sent = s.sent ++ c ∷ [] }

pub forward-answered :
    (p : Platform) (req : Request) (token : Text) (s : State) (r : Reply)
    → p.backend s.sent (forward_call p req token) ≡ some r
    → forward p req token s ≡ (ok r, sending s (forward_call p req token))
unfolding forward fetch
forward-answered p req token s r e = ground arith

module _ (p : Platform) (req : Request) where
  IsOpening-length : {b calls : List Call} → IsOpening p req b calls → length calls ≤ 2
  IsOpening-length nothing = omega arith
  IsOpening-length minted = omega arith
  IsOpening-length (joined t) = omega arith
  IsOpening-length (founded t) = omega arith

  IsCourse-length : {s : State} {calls : List Call} → IsCourse p req s calls → length calls ≤ 3
  IsCourse-length (turned_away h) = omega arith
  IsCourse-length (newcomer h n o) = omega (arith, IsOpening-length o)
  IsCourse-length (kept_on t h n q) = omega arith
  IsCourse-length (retried t r h n a u o) = omega (arith, IsOpening-length o)

  IsOpening-All :
      {b calls : List Call}
      → IsPermitted p req
      → IsOpening p req b calls
      → All (IsAllowed p req) calls
  IsOpening-All h nothing = tt
  IsOpening-All h minted = (minting _, tt)
  IsOpening-All h (joined t) = (forwarding t h, tt)
  IsOpening-All h (founded t) = (minting _, (forwarding t h, tt))

  pub IsCourse-All :
      {s : State} {calls : List Call} → IsCourse p req s calls → All (IsAllowed p req) calls
  IsCourse-All (turned_away h) = tt
  IsCourse-All (newcomer h n o) = IsOpening-All h o
  IsCourse-All (kept_on t h n q) = (forwarding t h, tt)
  IsCourse-All (retried t r h n a u o) = (forwarding t h, IsOpening-All h o)

  -- Calls with a course of them, from one list to another.
  abbrev Grown : (List Call → Type 0) → List Call → List Call → Type 0
  Grown Q b b' = (calls : List Call) × (b' ≡ b ++ calls) × Q calls

  forward-sent :
      (token : Text) (s : State)
      → (forward p req token s).1.sent ≡ s.sent ++ forward_call p req token ∷ []
  unfolding forward
  forward-sent token s = fetch-sent p (forward_call p req token) s

  -- What follows a session sends the request under it.
  after-IsOpening :
      (b : List Call) (r : Result Session × State) (f : Session → M Reply)
      → (r.1.sent ≡ b) ⊎ (r.1.sent ≡ b ++ mint_call p b ∷ [])
      → ((x : Session) (t : State)
          → r ≡ (ok x, t)
          → (f x t).1.sent ≡ t.sent ++ forward_call p req x.token ∷ [])
      → Grown (IsOpening p req b) b (after r f).1.sent
  after-IsOpening b (err e, t) f (inl h) k = ([], h ∙ sym (append-nil b), nothing)
  after-IsOpening b (err e, t) f (inr h) k = (mint_call p b ∷ [], h, minted)
  after-IsOpening b (ok x, t) f (inl h) k = (
    forward_call p req x.token ∷ [],
    k x t refl ∙ ap (λ (l : List Call). l ++ forward_call p req x.token ∷ []) h,
    joined x.token,
  )
  after-IsOpening b (ok x, t) f (inr h) k = (
    mint_call p b ∷ forward_call p req x.token ∷ [],
    k x t refl
        ∙ ap (λ (l : List Call). l ++ forward_call p req x.token ∷ []) h
        ∙ append_assoc b (mint_call p b ∷ []) (forward_call p req x.token ∷ []),
    founded x.token,
  )

  renew-IsOpening : (s : State) → Grown (IsOpening p req s.sent) s.sent (renew p req s).1.sent
  unfolding renew clear_session
  renew-IsOpening s =
      after-IsOpening s.sent (resolve_session p (visitor req) (clear_session s).1)
        (λ fresh. forward p req fresh.token) (resolve-sent p (visitor req) (clear_session s).1)
        (λ x t e. forward-sent x.token t)

  -- A workspace that was opened for this request is not renewed.
  attempt-minted :
      (x : Session) (s : State)
      → x.minted ≡ true
      → (attempt p req x s).1.sent ≡ s.sent ++ forward_call p req x.token ∷ []
  unfolding attempt
  attempt-minted x s h = ground (arith, forward-sent x.token s)

  newcomer-IsCourse :
      (s : State)
      → IsPermitted p req
      → existing s ≡ none
      → Grown (IsCourse p req s) s.sent (serve p req s).1.sent
  unfolding serve
  newcomer-IsCourse s h n =
      let (calls, grown, o) =
        after-IsOpening s.sent (resolve_session p (visitor req) s) (attempt p req)
          (resolve-sent p (visitor req) s)
          (λ x t e.
            attempt-minted x t
              ((resolve_session-IsResolved p (visitor req) s).opened x (ap (λ r. r.0) e) n).0) in
      (calls, grown, newcomer h n o)

  module _ (s : State) (t : Text) (held : existing s ≡ some t) where
    pub resolve-held :
        resolve_session p (visitor req) s ≡ (ok (record { token = t; minted = false }), s)
    resolve-held = ground (arith, (resolve_session-IsResolved p (visitor req) s).kept t held)

    -- The session of the cookie, in its three outcomes.
    serve_unanswered :
        p.backend s.sent (forward_call p req t) ≡ none
        → (serve p req s).1.sent ≡ s.sent ++ forward_call p req t ∷ []
    unfolding serve attempt forward fetch
    serve_unanswered e = rw resolve-held (ground arith)

    serve_kept :
        (r : Reply)
        → p.backend s.sent (forward_call p req t) ≡ some r
        → (r.status == 401) ≡ false
        → (serve p req s).1.sent ≡ s.sent ++ forward_call p req t ∷ []
    unfolding serve attempt
    serve_kept r e u = rw (resolve-held, forward-answered p req t s r e, u) refl

    serve_retried :
        (r : Reply)
        → p.backend s.sent (forward_call p req t) ≡ some r
        → (r.status == 401) ≡ true
        → (serve p req s).1.sent ≡ (renew p req (sending s (forward_call p req t))).1.sent
    unfolding serve attempt
    serve_retried r e u = rw (resolve-held, forward-answered p req t s r e, u) refl

    renewed-IsCourse :
        (r : Reply)
        → IsPermitted p req
        → p.backend s.sent (forward_call p req t) ≡ some r
        → (r.status == 401) ≡ true
        → Grown (IsCourse p req s) s.sent (serve p req s).1.sent
    renewed-IsCourse r h e u =
        let (calls, grown, o) = renew-IsOpening (sending s (forward_call p req t)) in
        (
          forward_call p req t ∷ calls,
          serve_retried r e u ∙ grown ∙ append_assoc s.sent (forward_call p req t ∷ []) calls,
          retried t r h held e ((==_iff r.status 401).0 u) o,
        )

    other_status :
        (r q : Reply)
        → p.backend s.sent (forward_call p req t) ≡ some r
        → p.backend s.sent (forward_call p req t) ≡ some q
        → (r.status == 401) ≡ false
        → q.status ≢ 401
    other_status r q e f u k =
        let same : q ≡ r = cc (e, f) in
        let yes = (==_iff r.status 401).1 (sym (ap (λ (x : Reply). x.status) same) ∙ k) in
        cc (u, yes)

    held-IsCourse : IsPermitted p req → Grown (IsCourse p req s) s.sent (serve p req s).1.sent
    held-IsCourse h = elim (Option-cases (p.backend s.sent (forward_call p req t))) [
      | inl e ↦ (forward_call p req t ∷ [], serve_unanswered e, kept_on t h held (λ q f. cc (e, f)))
      | inr (r, e) ↦ elim (Bool-cases (r.status == 401)) [
        | inr u ↦ (
          forward_call p req t ∷ [],
          serve_kept r e u,
          kept_on t h held (λ q f. other_status r q e f u),
        )
        | inl u ↦ renewed-IsCourse r h e u
      ]
    ]

  serve-IsCourse :
      (s : State) → IsPermitted p req → Grown (IsCourse p req s) s.sent (serve p req s).1.sent
  serve-IsCourse s h = elim (Option-cases (existing s)) [
    | inl n ↦ newcomer-IsCourse s h n
    | inr (t, held) ↦ held-IsCourse s t held h
  ]

  proxy-IsCourse : (s : State) → Grown (IsCourse p req s) s.sent (proxy p req s).1.sent
  unfolding proxy
  proxy-IsCourse s = elim (Option-cases (refusal p req)) [
    | inl e ↦ rw e (serve-IsCourse s ((refusal_iff p req).0 e))
    | inr (r, e) ↦ rw e (
      [],
      sym (append-nil s.sent),
      turned_away (λ h. let f : refusal p req ≡ none = (refusal_iff p req).1 h in cc (e, f)),
    )
  ]

pub proxy-Exchange : (p : Platform) (req : Request) (s : State) → Exchange p req s (proxy p req s).1
proxy-Exchange p req s =
    let (calls, grown, course) = proxy-IsCourse p req s in
    record { calls = calls; grown = grown; course = course; few = IsCourse-length p req course }
