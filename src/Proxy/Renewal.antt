-- ===== src/Proxy/Renewal.antt =====
-- What becomes of a session whose bearer the API refuses.
use fintech_innova_hack.Prelude.{◌≡◌, refl, ◌≢◌, true, none, some, List, [], ◌∷◌, ◌++◌, arith, ap}
use fintech_innova_hack.Prelude.Text.{Text}
use fintech_innova_hack.Server.Http.{Call, Reply, ok, Platform, State}
use fintech_innova_hack.Server.Session.{
  mint_call, read_mint, get_mint, existing, resolve_session, clear_session, start_mint,
  session_cookie, put_cookie,
}
use fintech_innova_hack.Server.Session.Laws.{resolve-fresh, start_mint-state}
use fintech_innova_hack.Proxy.{
  Request, visitor, forward_call, renew, attempt, conclude, relay, serve, proxy,
}
use fintech_innova_hack.Proxy.Calls.{sending, forward-answered, resolve-held}
use fintech_innova_hack.Proxy.Guards.{IsPermitted, refusal_iff}

module _ (p : Platform) (req : Request) (s : State) (t : Text) (permitted : IsPermitted p req)
    (held : existing s ≡ some t) (r : Reply)
    (answered : p.backend s.sent (forward_call p req t) ≡ some r) where
  -- A reply other than 401 under a bearer that the cookie held is relayed as it is, after that one
  -- call, and the cookie stays.
  pub proxy-accepted :
      r.status ≢ 401
      → proxy p req s ≡ (relay p r, record s { sent = s.sent ++ forward_call p req t ∷ [] })
  unfolding proxy serve attempt conclude
  proxy-accepted h =
      rw
        (
          (refusal_iff p req).1 permitted,
          resolve-held p req s t held,
          forward-answered p req t s r answered,
        )
        (ground arith)

-- The state in which the second session is sought: one call made, the cookie emptied.
abbrev cleared : Platform → Request → Text → State → State
cleared p req t s = (clear_session (sending s (forward_call p req t))).1

-- The calls before the second mint, and those before the second attempt.
abbrev pub before_mint : Platform → Request → State → Text → List Call
before_mint p req s t = s.sent ++ forward_call p req t ∷ []

abbrev pub before_retry : Platform → Request → State → Text → List Call
before_retry p req s t = before_mint p req s t ++ mint_call p (before_mint p req s t) ∷ []

module _ (p : Platform) (req : Request) (s : State) (t t' : Text) (m r' : Reply)
    (vacant : get_mint (visitor req) s.mints_in_flight ≡ none) where
  renewed : State
  renewed = put_cookie (session_cookie p t') (start_mint p (visitor req) (cleared p req t s)).1

  renewed-facts : (renewed.sent ≡ (before_retry p req s t)) × (renewed.jar ≡ some t')
  unfolding renewed clear_session session_cookie
  renewed-facts = ground (arith, start_mint-state p (visitor req) (cleared p req t s))

  resolve-renewed :
      p.backend (before_mint p req s t) (mint_call p (before_mint p req s t)) ≡ some m
      → read_mint p m ≡ ok t'
      → resolve_session p (visitor req) (cleared p req t s)
        ≡ (ok (record { token = t'; minted = true }), renewed)
  unfolding renewed clear_session
  resolve-renewed a b = resolve-fresh p (visitor req) (cleared p req t s) vacant m t' refl a b

  renew-answered :
      p.backend (before_mint p req s t) (mint_call p (before_mint p req s t)) ≡ some m
      → read_mint p m ≡ ok t'
      → p.backend (before_retry p req s t) (forward_call p req t') ≡ some r'
      → renew p req (sending s (forward_call p req t))
        ≡ (ok r', sending renewed (forward_call p req t'))
  unfolding renew
  renew-answered a b c =
      rw (resolve-renewed a b) (forward-answered p req t' renewed r' (rw renewed-facts.0 c))

  -- If the cookie's bearer is refused, no mint is in flight for the visitor, a mint then succeeds and the
  -- request, sent once more under the new bearer, is answered, then that answer is relayed, the cookie
  -- holds the new bearer, and the three calls are all.
  pub proxy-renewed :
      (r : Reply)
      → IsPermitted p req
      → existing s ≡ some t
      → p.backend s.sent (forward_call p req t) ≡ some r
      → r.status ≡ 401
      → p.backend (before_mint p req s t) (mint_call p (before_mint p req s t)) ≡ some m
      → read_mint p m ≡ ok t'
      → p.backend (before_retry p req s t) (forward_call p req t') ≡ some r'
      → ((proxy p req s).0 ≡ relay p r')
        × ((proxy p req s).1.sent ≡ (before_retry p req s t) ++ forward_call p req t' ∷ [])
        × ((proxy p req s).1.jar ≡ some t')
  unfolding proxy serve attempt conclude
  proxy-renewed r permitted held answered refused a b c =
      rw
        (
          (refusal_iff p req).1 permitted,
          resolve-held p req s t held,
          forward-answered p req t s r answered,
          refused,
          renew-answered a b c,
        )
        (
          refl,
          ap (λ (l : List Call). l ++ forward_call p req t' ∷ []) renewed-facts.0,
          renewed-facts.1,
        )
