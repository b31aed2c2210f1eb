-- ===== src/Store/Accounts.antt =====
-- internal/store/users.go and tokens.go.
use uran_api.Prelude.{
  ℕ, suc, Text, Bool, not, ◌&&◌, Option, none, some, List, ◌∷◌, reverse, ◌==◌, nat_eq, text_eq,
  if◌then◌else◌, find, select, update, discard, any, length, ltb,
}
use uran_api.Exec.{Result, ok, err}
use uran_api.Store.{Db, Error, not_found, violation, Query, statement, query}
use uran_api.Store.Models.{User, Session, ApiToken}
use uran_api.Store.Deploys.{one_row}

abbrev pub has_email : Text → User → Bool
has_email email u = u.email == email

abbrev pub is_user : ℕ → User → Bool
is_user id u = u.id == id

abbrev pub new_user : Text → Text → Text → Db → User
new_user email password_hash name db = record {
  id = db.next_user;
  email = email;
  password_hash = password_hash;
  name = name;
}

-- Under the unique constraint on `email`.
unfoldable pub create_user : Text → Text → Text → Query User
create_user email password_hash name = statement λ db.
    if any (has_email email) db.users
    then err violation
    else ok (
      new_user email password_hash name db,
      record db {
        users = new_user email password_hash name db ∷ db.users;
        next_user = suc db.next_user;
      },
    )

abbrev pub is_session : Text → Session → Bool
is_session token s = s.token == token

-- The primary key is the token.
unfoldable pub create_session : Text → ℕ → ℕ → Query Unit
create_session token user_id expires_at = statement λ db.
    if any (is_user user_id) db.users && not (any (is_session token) db.sessions)
    then ok (
      tt,
      record db {
        sessions =
            record { token = token; user_id = user_id; expires_at = expires_at } ∷ db.sessions;
      },
    )
    else err violation

-- The row that a row of another table refers to.
abbrev pub owner_row : List User → Option ℕ → Result Error User
owner_row users none = err not_found
owner_row users (some id) = one_row (find (is_user id) users)

abbrev pub session_user : Option Session → Option ℕ
session_user none = none
session_user (some s) = some s.user_id

-- A session of which the time has not come.
abbrev pub is_live : Text → ℕ → Session → Bool
is_live token now s = s.token == token && ltb now s.expires_at

unfoldable pub user_by_session : Text → Query User
user_by_session token =
    query λ db. owner_row db.users (session_user (find (is_live token db.now) db.sessions))

unfoldable pub delete_session : Text → Query Unit
delete_session token =
    statement λ db. ok (tt, record db { sessions = discard (is_session token) db.sessions })

abbrev pub has_hash : Text → ApiToken → Bool
has_hash token_hash t = t.token_hash == token_hash

abbrev pub new_api_token : ℕ → Text → Text → Text → Db → ApiToken
new_api_token user_id name token_hash prefix db = record {
  id = db.next_api_token;
  user_id = user_id;
  name = name;
  token_hash = token_hash;
  prefix = prefix;
  created_at = db.now;
  last_used_at = none;
}

-- Under the unique constraint on `token_hash`.
unfoldable pub create_api_token : ℕ → Text → Text → Text → Query ApiToken
create_api_token user_id name token_hash prefix = statement λ db.
    if any (is_user user_id) db.users && not (any (has_hash token_hash) db.api_tokens)
    then ok (
      new_api_token user_id name token_hash prefix db,
      record db {
        api_tokens = new_api_token user_id name token_hash prefix db ∷ db.api_tokens;
        next_api_token = suc db.next_api_token;
      },
    )
    else err violation

-- Oldest first.
unfoldable pub list_api_tokens : ℕ → Query (List ApiToken)
list_api_tokens user_id =
    query λ db. ok (reverse (select (λ (t : ApiToken). t.user_id == user_id) db.api_tokens))

abbrev pub is_token_of : ℕ → ℕ → ApiToken → Bool
is_token_of user_id id t = t.id == id && t.user_id == user_id

-- Whether a row was deleted.
unfoldable pub delete_api_token : ℕ → ℕ → Query Bool
delete_api_token user_id id = statement λ db. ok (
  ltb 0 (length (select (is_token_of user_id id) db.api_tokens)),
  record db { api_tokens = discard (is_token_of user_id id) db.api_tokens },
)

abbrev pub token_user : Option ApiToken → Option ℕ
token_user none = none
token_user (some t) = some t.user_id

unfoldable pub user_by_api_token : Text → Query User
user_by_api_token token_hash =
    query λ db. owner_row db.users (token_user (find (has_hash token_hash) db.api_tokens))

unfoldable pub touch_api_token : Text → Query Unit
touch_api_token token_hash = statement λ db. ok (
  tt,
  record db {
    api_tokens =
        update (has_hash token_hash) (λ (t : ApiToken). record t { last_used_at = some db.now })
          db.api_tokens;
  },
)
