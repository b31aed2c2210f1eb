-- ===== src/Auth/Tokens.antt =====
-- internal/auth/auth.go: what the middleware lets pass.
use uran_api.Prelude.{
  ℕ, ◌<◌, Text, true, false, Bool-cases, ◌≡◌, ◌≢◌, refl, ◌⊎◌, inl, inr, Option, none, some, [],
  ◌==◌, nat_eq, text_eq, text_beq, text_beq_iff, find, find-holds, ltb→lt, arith,
}
use uran_api.Exec.{ok, raise, pure, ◌>>=◌, or_raise, catch, try}
use uran_api.Go.Text.{has_prefix}
use uran_api.Go.Unicode.{Unicode}
use uran_api.Store.{World, Db, query, statement}
use uran_api.Store.Models.{User, Session, ApiToken}
use uran_api.Store.Accounts.{
  is_user, is_live, has_hash, owner_row, session_user, token_user, user_by_session,
  user_by_api_token, touch_api_token,
}
use uran_api.Auth.{api_token_prefix, bearer_token, user_by_token, resolve, middleware}

-- A session of the user that has not run out.
pub record SessionOf (db : Db) (token : Text) (user : User) : Type 0 where
  pub session : Session
  pub found : find (is_live token db.now) db.sessions ≡ some session
  pub same : session.token ≡ token
  pub live : db.now < session.expires_at
  pub owner : find (is_user session.user_id) db.users ≡ some user

-- An API token of the user, known by its hash.
pub record TokenOf (db : Db) (token_hash : Text) (user : User) : Type 0 where
  pub api_token : ApiToken
  pub found : find (has_hash token_hash) db.api_tokens ≡ some api_token
  pub same : api_token.token_hash ≡ token_hash
  pub owner : find (is_user api_token.user_id) db.users ≡ some user

is_live-parts :
    (token : Text) (now : ℕ) (s : Session)
    → is_live token now s ≡ true
    → (s.token ≡ token) × (now < s.expires_at)
is_live-parts token now s h =
    ((text_beq_iff s.token token).0 (ground arith), ltb→lt now s.expires_at (ground arith))

module _ (db : Db) (token : Text) (user : User) where
  found_session :
      (o : Option Session)
      → find (is_live token db.now) db.sessions ≡ o
      → owner_row db.users (session_user o) ≡ ok user
      → SessionOf db token user
  found_session none e h = absurd (ground arith)
  found_session (some s) e h =
      let (same, live) =
        is_live-parts token db.now s (find-holds (is_live token db.now) db.sessions s e) in
      record { session = s; found = e; same = same; live = live; owner = ground arith }

  found_token :
      (o : Option ApiToken)
      → find (has_hash token) db.api_tokens ≡ o
      → owner_row db.users (token_user o) ≡ ok user
      → TokenOf db token user
  found_token none e h = absurd (ground arith)
  found_token (some t) e h = record {
    api_token = t;
    found = e;
    same = (text_beq_iff t.token_hash token).0 (find-holds (has_hash token) db.api_tokens t e);
    owner = ground arith;
  }

token_ne_nil : (token : Text) → (token == []) ≡ false → token ≢ []
unfolding text_beq
token_ne_nil token h e = absurd (ground arith)

module _ (u : Unicode) (hash_api_token : Text → Text) (w : World) (user : User) where
  session_sound : (token : Text) → (user_by_session token w).0 ≡ ok user → SessionOf w.db token user
  unfolding user_by_session query
  session_sound token h = found_session w.db token user _ refl (ground (arith, h))

  token_sound :
      (token : Text)
      → (user_by_token u hash_api_token token w).0 ≡ ok user
      → TokenOf w.db (hash_api_token token) user
  unfolding user_by_token user_by_api_token touch_api_token query statement ◌>>=◌ try pure
  token_sound token h = found_token w.db (hash_api_token token) user _ refl (ground (arith, h))

  let_pass :
      (header : Text)
      → (middleware u hash_api_token header w).0 ≡ ok user
      → ((bearer_token u hash_api_token header == []) ≡ false)
        × ((resolve u hash_api_token (bearer_token u hash_api_token header) w).0 ≡ ok user)
  unfolding middleware or_raise catch raise
  let_pass header h = ground (arith, h)

  resolve_sound :
      (token : Text)
      → (resolve u hash_api_token token w).0 ≡ ok user
      → ((has_prefix api_token_prefix token ≡ false) × SessionOf w.db token user)
        ⊎ ((has_prefix api_token_prefix token ≡ true) × TokenOf w.db (hash_api_token token) user)
  unfolding resolve
  resolve_sound token h = elim (Bool-cases (has_prefix api_token_prefix token)) [
    | inl e ↦ inr (e, token_sound token (rw e at h))
    | inr e ↦ inl (e, session_sound token (rw e at h))
  ]

  -- A request that the middleware lets pass carries a bearer token that is not empty; the user it
  -- goes on with is that of a session with this token that has not run out or, for a token with the
  -- prefix of API tokens, that of the API token with its hash.
  pub middleware_sound :
      (header : Text)
      → (middleware u hash_api_token header w).0 ≡ ok user
      → let token = bearer_token u hash_api_token header in
        (token ≢ [])
        × (((has_prefix api_token_prefix token ≡ false) × SessionOf w.db token user)
            ⊎ ((has_prefix api_token_prefix token ≡ true)
                × TokenOf w.db (hash_api_token token) user))
  middleware_sound header h =
      let token = bearer_token u hash_api_token header in
      let (some_token, resolved) = let_pass header h in
      (λ e. token_ne_nil token some_token e, resolve_sound token resolved)
