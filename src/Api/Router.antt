-- ===== src/Api/Router.antt =====
-- internal/api/server.go: what `Router` puts around each handler but those of the registration, the
-- login, the webhook and the health check. The paths are in Api/Routes.
use uran_api.Prelude.{
  ◌≡◌, ◌≢◌, refl, ◌⊎◌, inl, inr, true, false, Bool-cases, String, ℕ, Text, [], ◌==◌, text_eq, arith,
}
use uran_api.Exec.{Result, ok, err, raise, pure, ◌>>=◌, or_raise, catch, try}
use uran_api.Go.Text.{codes, has_prefix}
use uran_api.Go.Unicode.{Unicode}
use uran_api.Store.{World, Db, Error, query, statement}
use uran_api.Store.Models.{User}
use uran_api.Store.Accounts.{user_by_session, user_by_api_token, touch_api_token}
use uran_api.Auth.{
  Unauthorized, unauthorized, api_token_prefix, bearer_token, user_by_token, resolve, middleware,
}
use uran_api.Auth.Tokens.{SessionOf, TokenOf, middleware_sound}
use uran_api.Api.Access.{Request, refusal, Handler, is_mutation}
use uran_api.Api.Reports.{audit_middleware}

abbrev pub as_user : User → String → Request
as_user user method = record { user_id = user.id; method = method }

module _ (u : Unicode) (hash_api_token : Text → Text) where
  -- The two middlewares of the authenticated group around a handler.
  unfoldable pub authenticated :
      {A : Type 0} → Text → String → Text → ℕ → (Request → Handler A) → Handler A
  unfolding middleware audit_middleware or_raise
  authenticated header method path succeeded handler = do
    user ← or_raise (middleware u hash_api_token header) (refusal 401 (codes "unauthorized"))
    audit_middleware (as_user user method) user.email path succeeded (handler (as_user user method))

  -- Only the count of requests differs.
  pub record Untouched (v w : World) : Type 0 where
    pub db : v.db ≡ w.db
    pub notes : v.notes ≡ w.notes
    pub calls : v.calls ≡ w.calls

  refused_session :
      (token : Text) (w : World) (e : Error)
      → (user_by_session token w).0 ≡ err e
      → Untouched (user_by_session token w).1 w
  unfolding user_by_session query
  refused_session token w e h = record {
    db = ground (arith, h);
    notes = ground (arith, h);
    calls = ground (arith, h);
  }

  refused_token :
      (token : Text) (w : World) (e : Error)
      → (user_by_token u hash_api_token token w).0 ≡ err e
      → Untouched (user_by_token u hash_api_token token w).1 w
  unfolding user_by_token user_by_api_token touch_api_token query statement ◌>>=◌ try pure
  refused_token token w e h = record {
    db = ground (arith, h);
    notes = ground (arith, h);
    calls = ground (arith, h);
  }

  refused_resolve :
      (token : Text) (w : World) (e : Error)
      → (resolve u hash_api_token token w).0 ≡ err e
      → Untouched (resolve u hash_api_token token w).1 w
  unfolding resolve
  refused_resolve token w e h = elim (Bool-cases (has_prefix api_token_prefix token)) [
    | inl c ↦ rw c (refused_token token w e (rw c at h))
    | inr c ↦ rw c (refused_session token w e (rw c at h))
  ]

  resolved :
      (token : Text) (w : World) (o : Result Error User)
      → (resolve u hash_api_token token w).0 ≡ o
      → (or_raise (resolve u hash_api_token token) unauthorized w).0 ≡ err unauthorized
      → Untouched (or_raise (resolve u hash_api_token token) unauthorized w).1 w
  unfolding or_raise catch raise
  resolved token w (ok user) e h = absurd (ground (arith, e, h))
  resolved token w (err why) e h = rw e (refused_resolve token w why e)

  refused :
      (header : Text) (w : World)
      → (middleware u hash_api_token header w).0 ≡ err unauthorized
      → Untouched (middleware u hash_api_token header w).1 w
  unfolding middleware raise
  refused header w h = elim (Bool-cases (bearer_token u hash_api_token header == [])) [
    | inl c ↦ rw (c, raise) (record { db = refl; notes = refl; calls = refl })
    | inr c ↦ rw c (resolved (bearer_token u hash_api_token header) w _ refl (rw c at h))
  ]

  audited :
      {A : Type 0} (r : Request) (email path : Text) (succeeded : ℕ) (next : Handler A) (w : World)
      → (audit_middleware r email path succeeded next w).0 ≡ (next w).0
  unfolding audit_middleware
  audited r email path succeeded next w = elim (Bool-cases (is_mutation r.method)) [
    | inl c ↦ rw c refl
    | inr c ↦ rw c refl
  ]

  -- A user with a token that the request carries.
  pub record Bears (db : Db) (header : Text) (user : User) : Type 0 where
    pub some_token : bearer_token u hash_api_token header ≢ []
    pub proof :
        ((has_prefix api_token_prefix (bearer_token u hash_api_token header) ≡ false)
          × SessionOf db (bearer_token u hash_api_token header) user)
        ⊎ ((has_prefix api_token_prefix (bearer_token u hash_api_token header) ≡ true)
            × TokenOf db (hash_api_token (bearer_token u hash_api_token header)) user)

  module _ {A : Type 0} (header : Text) (method : String) (path : Text) (succeeded : ℕ)
      (handler : Request → Handler A) (w : World) where
    abbrev pub Admitted : Type 0
    Admitted =
        (user : User) × Bears w.db header user
        × ((authenticated header method path succeeded handler w).0
            ≡ (handler (as_user user method) (middleware u hash_api_token header w).1).0)

    abbrev pub TurnedAway : Type 0
    TurnedAway =
        ((authenticated header method path succeeded handler w).0
          ≡ err (refusal 401 (codes "unauthorized")))
        × Untouched (authenticated header method path succeeded handler w).1 w

    outcome :
        (o : Result Unauthorized User)
        → (middleware u hash_api_token header w).0 ≡ o
        → TurnedAway ⊎ Admitted
    unfolding authenticated or_raise catch raise ◌>>=◌
    outcome (err unauthorized) e = inl (rw e (refl, refused header w e))
    outcome (ok user) e = inr (
      user,
      record {
        some_token = (middleware_sound u hash_api_token w user header e).0;
        proof = (middleware_sound u hash_api_token w user header e).1;
      },
      rw e (
          audited (as_user user method) user.email path succeeded (handler (as_user user method))
            (middleware u hash_api_token header w).1),
    )

    -- A request to an endpoint behind the authentication either gets a 401, with no table changed,
    -- no channel notified and nothing asked of the cluster, or gets the answer of the endpoint's
    -- handler, run as a user of whom the request carries a session that has not run out or an API
    -- token.
    pub authenticated-cases : TurnedAway ⊎ Admitted
    authenticated-cases = outcome _ refl
