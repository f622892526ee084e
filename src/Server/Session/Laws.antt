-- ===== src/Server/Session/Laws.antt =====
-- What resolving a session does to the calls, the promises and the cookies.
use fintech_innova_hack.Prelude.{
  ◌≡◌, refl, ◌⊎◌, true, false, none, some, [], ◌∷◌, ◌++◌, arith, ==_iff,
}
use fintech_innova_hack.Prelude.Text.{Text}
use fintech_innova_hack.Prelude.Text.Laws.{text_eq_refl}
use fintech_innova_hack.Server.Http.{
  Call, Reply, Result, ok, err, Error, Platform, Cookie, State, fetch,
}
use fintech_innova_hack.Server.Session.{
  Session, mint_call, read_mint, mint_sandbox_tenant, get_mint, delete_mint, release_mint,
  start_mint, mint_or_join, session_cookie, put_cookie, existing, resolve_session, clear_session,
}

pub fetch-sent : (p : Platform) (c : Call) (s : State) → (fetch p c s).1.sent ≡ s.sent ++ c ∷ []
unfolding fetch
fetch-sent p c s = ground arith

fetch_rest :
    (p : Platform) (c : Call) (s : State) → (fetch p c s).1 ≡ record s { sent = s.sent ++ c ∷ [] }
unfolding fetch
fetch_rest p c s = ground arith

-- A mint is one call and leaves the rest of the state alone.
pub mint-state :
    (p : Platform) (s : State)
    → (mint_sandbox_tenant p s).1 ≡ record s { sent = s.sent ++ mint_call p s.sent ∷ [] }
unfolding mint_sandbox_tenant
mint-state p s = ground (arith, fetch_rest p (mint_call p s.sent) s)

pub start_mint-state :
    (p : Platform) (key : Text) (s : State)
    → (start_mint p key s).1 ≡ record s {
      sent = s.sent ++ mint_call p s.sent ∷ [];
      next_mint = (start_mint p key s).1.next_mint;
    }
unfolding start_mint release_mint get_mint delete_mint
start_mint-state p key s =
    ground (arith, mint-state p s, text_eq_refl key, ==_iff s.next_mint s.next_mint)

mint_or_join-sent :
    (p : Platform) (key : Text) (s : State)
    → ((mint_or_join p key s).1.sent ≡ s.sent)
      ⊎ ((mint_or_join p key s).1.sent ≡ s.sent ++ mint_call p s.sent ∷ [])
unfolding mint_or_join
mint_or_join-sent p key s = ground (arith, start_mint-state p key s)

pub resolve-sent :
    (p : Platform) (key : Text) (s : State)
    → ((resolve_session p key s).1.sent ≡ s.sent)
      ⊎ ((resolve_session p key s).1.sent ≡ s.sent ++ mint_call p s.sent ∷ [])
unfolding resolve_session
resolve-sent p key s = ground (arith, mint_or_join-sent p key s)

pub clear-sent : (s : State) → (clear_session s).1.sent ≡ s.sent
unfolding clear_session
clear-sent s = refl

-- What a call of `resolve_session` has done: a cookie that holds a bearer is taken as it is; a failure
-- leaves the cookies alone; a new workspace's bearer is put into the one new cookie, which scripts
-- cannot read; and no promise is left in the map or taken from it.
pub record IsResolved (p : Platform) (s : State) (r : Result Session) (s' : State) : Type 0 where
  pub kept :
      (t : Text) → existing s ≡ some t → (r ≡ ok (record { token = t; minted = false })) × (s' ≡ s)
  pub failed : (e : Error) → r ≡ err e → (s'.jar ≡ s.jar) × (s'.set_cookies ≡ s.set_cookies)
  pub opened :
      (x : Session)
      → r ≡ ok x
      → existing s ≡ none
      → (x.minted ≡ true)
        × (s'.jar ≡ some x.token)
        × (c : Cookie) × (s'.set_cookies ≡ c ∷ s.set_cookies)
        × (c.value ≡ x.token)
        × (c.http_only ≡ true)
        × (c.same_site_lax ≡ true)
        × (c.secure ≡ p.production)
  pub slots : s'.mints_in_flight ≡ s.mints_in_flight

mint_or_join-rest :
    (p : Platform) (key : Text) (s : State)
    → ((mint_or_join p key s).1.jar ≡ s.jar)
      × ((mint_or_join p key s).1.set_cookies ≡ s.set_cookies)
      × ((mint_or_join p key s).1.mints_in_flight ≡ s.mints_in_flight)
unfolding mint_or_join
mint_or_join-rest p key s = ground (arith, start_mint-state p key s)

-- `resolve_session` does what `IsResolved` says, whatever the API answers.
pub resolve_session-IsResolved :
    (p : Platform) (key : Text) (s : State)
    → IsResolved p s (resolve_session p key s).0 (resolve_session p key s).1
unfolding resolve_session session_cookie
resolve_session-IsResolved p key s = record {
  kept = λ t e. ground arith;
  failed = λ e h. ground (arith, mint_or_join-rest p key s);
  opened = λ x h n. (
    ground arith,
    ground arith,
    session_cookie p x.token,
    ground (arith, mint_or_join-rest p key s),
    ground arith,
    ground arith,
    ground arith,
    ground arith,
  );
  slots = ground (arith, mint_or_join-rest p key s);
}

module _ (p : Platform) (key : Text) (s : State)
    (vacant : get_mint key s.mints_in_flight ≡ none) where
  start_mint-outcome :
      (reply : Reply)
      → p.backend s.sent (mint_call p s.sent) ≡ some reply
      → (start_mint p key s).0 ≡ read_mint p reply
  unfolding start_mint mint_sandbox_tenant fetch
  start_mint-outcome reply e = ground arith

  -- A visitor without a session whose mint succeeds.
  pub resolve-fresh :
      (reply : Reply) (token : Text)
      → existing s ≡ none
      → p.backend s.sent (mint_call p s.sent) ≡ some reply
      → read_mint p reply ≡ ok token
      → resolve_session p key s ≡ (
        ok (record { token = token; minted = true }),
        put_cookie (session_cookie p token) (start_mint p key s).1,
      )
  unfolding resolve_session mint_or_join
  resolve-fresh reply token n e r = ground (arith, start_mint-outcome reply e)
