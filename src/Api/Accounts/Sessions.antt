-- ===== src/Api/Accounts/Sessions.antt =====
-- internal/api/auth_handlers.go with internal/auth: sessions from their issue to the logout.
use uran_api.Prelude.{
  ℕ, suc, ◌+◌, ◌<◌, Text, Bool, true, false, ◌≡◌, refl, sym, ap, ◌∙◌, Option, some, [], ◌∷◌, ◌++◌,
  ◌==◌, nat_eq, nat_beq_iff, text_eq, text_beq, text_beq_iff, find, any, ltb, arith,
}
use uran_api.Exec.{ok, pure, raise, guard, ◌>>=◌, or_raise, catch}
use uran_api.Go.Text.{codes, byte_length}
use uran_api.Go.Unicode.{Unicode}
use uran_api.Store.{World, Healthy, query, statement}
use uran_api.Store.Models.{User}
use uran_api.Store.Members.{user_by_email}
use uran_api.Store.Accounts.{
  has_email, is_user, is_session, new_user, create_user, create_session, user_by_session,
}
use uran_api.Auth.{resolve, middleware}
use uran_api.Auth.Bearer.{Hex, has_prefix-Hex, bearer_token-Hex}
use uran_api.Api.Access.{decoded}
use uran_api.Api.Accounts.{
  Register, clock, given, issue_session, normal_email, handle_register, handle_login,
}

-- The world after a session was stored.
abbrev with_session : Text → ℕ → ℕ → World → World
with_session token user_id expires_at w = record w {
  db = record w.db {
    sessions = record { token = token; user_id = user_id; expires_at = expires_at } ∷ w.db.sessions;
  };
  sent = suc w.sent;
}

issued :
    (token : Text) (ttl : ℕ) (user : User) (w : World)
    → Healthy w
    → any (is_user user.id) w.users ≡ true
    → any (is_session token) w.sessions ≡ false
    → issue_session (some token) ttl user w
      ≡ (ok (record { token = token; user = user }), with_session token user.id (w.now + ttl) w)
unfolding issue_session given clock create_session statement ◌>>=◌ or_raise catch pure
issued token ttl user w healthy known fresh = rw (healthy w.sent, known, fresh) refl

-- The world after a user was stored.
abbrev with_user : Text → Text → Text → World → World
with_user email hash name w = record w {
  db = record w.db {
    users = new_user email hash name w.db ∷ w.db.users;
    next_user = suc w.db.next_user;
  };
  sent = suc w.sent;
}

text_beq_refl : (t : Text) → text_beq t t ≡ true
text_beq_refl t = (text_beq_iff t t).1 refl

lt-ltb : (m n : ℕ) → m < n → ltb m n ≡ true
lt-ltb m n h = ground (arith, h)

-- The same world at another time.
abbrev pub at_time : ℕ → World → World
at_time now w = record w { db = record w.db { now = now } }

-- A request with the token of a session that was stored and has not run out is the user's.
session_resolves :
    (u : Unicode) (hash_api_token : Text → Text) (token : Text) (expires_at later : ℕ) (user : User)
    (w : World)
    → Healthy w
    → Hex token
    → (token == []) ≡ false
    → later < expires_at
    → find (is_user user.id) w.users ≡ some user
    → (middleware u hash_api_token
        (codes "Bearer " ++ token)
        (at_time later (with_session token user.id expires_at w))).0
      ≡ ok user
unfolding middleware resolve user_by_session query or_raise catch raise find
session_resolves u hash_api_token token expires_at later user w healthy hex some_token live known =
    rw
      (
        bearer_token-Hex u hash_api_token token hex,
        some_token,
        has_prefix-Hex token hex,
        healthy (suc w.sent),
        text_beq_refl token,
        lt-ltb later expires_at live,
        known,
      )
      refl

nat_beq_refl : (n : ℕ) → (n == n) ≡ true
nat_beq_refl n = (nat_beq_iff n n).1 refl

first_user :
    (email hash name : Text) (w : World)
    → any (is_user w.next_user) (with_user email hash name w).users ≡ true
unfolding any
first_user email hash name w = rw (nat_beq_refl w.next_user) refl

found_user :
    (email hash name : Text) (w : World)
    → find (is_user w.next_user) (with_user email hash name w).users
      ≡ some (new_user email hash name w.db)
unfolding find
found_user email hash name w = rw (nat_beq_refl w.next_user) refl

-- A registration that is in order: an address that is not blank and not taken, a password of eight
-- bytes or more that bcrypt hashes.
pub record Welcome (u : Unicode) (hash_password : Text → Option Text) (hash : Text) (req : Register)
    (w : World) : Type 0 where
  pub healthy : Healthy w
  pub email : (normal_email u req.email == []) ≡ false
  pub password : ltb (byte_length req.password) 8 ≡ false
  pub hashed : hash_password req.password ≡ some hash
  pub free : any (has_email (normal_email u req.email)) w.users ≡ false

-- A token as `NewToken` makes them, that no session has.
pub record Fresh (digits : Text) (w : World) : Type 0 where
  pub hex : Hex digits
  pub some_digits : (digits == []) ≡ false
  pub unused : any (is_session digits) w.sessions ≡ false

module _ (u : Unicode) (hash_password : Text → Option Text) where
  registered :
      (digits hash : Text) (ttl : ℕ) (req : Register) (w : World)
      → Welcome u hash_password hash req w
      → handle_register u hash_password (some digits) ttl (some req) w
        ≡ issue_session
            (some digits)
            ttl
            (new_user (normal_email u req.email) hash req.name w.db)
            (with_user (normal_email u req.email) hash req.name w)
  unfolding handle_register decoded guard given create_user statement ◌>>=◌ or_raise catch pure
      raise
  registered digits hash ttl req w ready =
      rw (ready.email, ready.password, ready.hashed, ready.healthy w.sent, ready.free) refl

  -- The world that a registration leaves.
  abbrev welcomed : Text → Text → ℕ → Register → World → World
  welcomed digits hash ttl req w =
      with_session digits w.next_user (w.now + ttl)
        (with_user (normal_email u req.email) hash req.name w)

  registered_world :
      (digits hash : Text) (ttl : ℕ) (req : Register) (w : World)
      → Welcome u hash_password hash req w
      → Fresh digits w
      → handle_register u hash_password (some digits) ttl (some req) w ≡ (
        ok (record {
          token = digits;
          user = new_user (normal_email u req.email) hash req.name w.db;
        }),
        welcomed digits hash ttl req w,
      )
  registered_world digits hash ttl req w ready fresh =
      registered digits hash ttl req w ready
      ∙ issued digits ttl _ (with_user (normal_email u req.email) hash req.name w) ready.healthy
          (first_user (normal_email u req.email) hash req.name w) fresh.unused

  -- A registration that is in order succeeds while no request to the database fails and the token is
  -- fresh; and its token, sent as a bearer token before the lifetime of the session is over, is let
  -- pass as the new user, whose address is the normalized one.
  pub handle_register-middleware :
      (hash_api_token : Text → Text) (digits hash : Text) (ttl later : ℕ) (req : Register)
      (w : World)
      → Welcome u hash_password hash req w
      → Fresh digits w
      → later < w.now + ttl
      → let (r, w') = handle_register u hash_password (some digits) ttl (some req) w in
        let user = new_user (normal_email u req.email) hash req.name w.db in
        (r ≡ ok (record { token = digits; user = user }))
        × ((middleware u hash_api_token (codes "Bearer " ++ digits) (at_time later w')).0 ≡ ok user)
  handle_register-middleware hash_api_token digits hash ttl later req w ready fresh live =
      let made = registered_world digits hash ttl req w ready fresh in
      (
        ap (λ x. x.0) made,
        ap (λ x. (middleware u hash_api_token (codes "Bearer " ++ digits) (at_time later x.1)).0)
              made
            ∙ session_resolves u hash_api_token digits (w.now + ttl) later _
                (with_user (normal_email u req.email) hash req.name w) ready.healthy fresh.hex
                fresh.some_digits live (found_user (normal_email u req.email) hash req.name w),
      )

  logged_in :
      (check_password : Text → Text → Bool) (again digits hash email : Text) (ttl : ℕ)
      (req : Register) (w : World)
      → Healthy w
      → normal_email u email ≡ normal_email u req.email
      → check_password hash req.password ≡ true
      → any (is_session again) (welcomed digits hash ttl req w).sessions ≡ false
      → (handle_login u check_password
          (some again)
          ttl
          (some (record { email = email; password = req.password }))
          (welcomed digits hash ttl req w)).0
        ≡ ok (record {
          token = again;
          user = new_user (normal_email u req.email) hash req.name w.db;
        })
  unfolding handle_login decoded guard user_by_email query ◌>>=◌ or_raise catch pure raise find
      issue_session given clock
  logged_in check_password again digits hash email ttl req w healthy same right unused =
      rw (same, healthy (suc (suc w.sent)), text_beq_refl (normal_email u req.email), right)
        (ap (λ x. x.0)
          (issued again ttl (new_user (normal_email u req.email) hash req.name w.db)
            (record (welcomed digits hash ttl req w) { sent = suc (suc (suc w.sent)) }) healthy
            (first_user (normal_email u req.email) hash req.name w) unused))

  -- After a registration that is in order, with a token that no session had, a login with the same
  -- password and any spelling of the address that normalizes to the same succeeds and answers the same
  -- user, while no request to the database fails, bcrypt accepts the password for the hash that it made
  -- of it, and the token made for the login is one that no session has.
  pub handle_login-handle_register :
      (check_password : Text → Text → Bool) (again digits hash email : Text) (ttl : ℕ)
      (req : Register) (w : World)
      → Welcome u hash_password hash req w
      → Fresh digits w
      → normal_email u email ≡ normal_email u req.email
      → check_password hash req.password ≡ true
      → let w' = (handle_register u hash_password (some digits) ttl (some req) w).1 in
        any (is_session again) w'.sessions ≡ false
        → (handle_login u check_password
            (some again)
            ttl
            (some (record { email = email; password = req.password }))
            w').0
          ≡ ok (record {
            token = again;
            user = new_user (normal_email u req.email) hash req.name w.db;
          })
  handle_login-handle_register check_password again digits hash email ttl req w ready fresh same
        right unused =
      let made = registered_world digits hash ttl req w ready fresh in
      ap
        (λ x.
          (handle_login u check_password (some again) ttl
            (some (record { email = email; password = req.password })) x.1).0)
        made
      ∙ logged_in check_password again digits hash email ttl req w ready.healthy same right
          (sym (ap (λ x. any (is_session again) x.1.sessions) made) ∙ unused)
