-- ===== src/Client.antt =====
-- cmd/uran/client.go and config.go: the command line client's requests and its saved credentials. What
-- the server answers to the n-th request is `answers n`, nothing where the connection fails; a body
-- comes with the JSON value that it is, if it is one. What a command prints is left out, and so is the
-- limit on the length of an error's body.
pub mod Services
pub mod Attachments
pub mod Databases
pub mod Orgs
pub mod Logs
pub mod Commands
pub mod Meaning
pub mod Reaches
pub mod Agreement
pub mod Errors
pub mod Streams
use uran_api.Prelude.{
  pos, int_beq, ℕ, suc, ℤ, String, Text, Bool, true, false, not, ◌&&◌, ◌||◌, Option, none, some,
  List, [], ◌∷◌, ◌++◌, ◌==◌, nat_eq, text_eq, if◌then◌else◌, leb, ltb, reverse,
}
use uran_api.Exec.{Result, ok, err, Exec, pure, raise, lift, ◌>>=◌, ◌>>◌}
use uran_api.Go.Text.{codes}
use uran_api.Go.Decimal.{format_nat}
use uran_api.Go.Unicode.{Unicode, drop_while, trim_space}
use uran_api.Go.Http.{Response}
use uran_api.Go.Json.{
  Json, null, boolean, number, text, arr, obj, Elems, nil, elem, Members, value_of,
}

pub record Credentials : Type 0 where
  pub api_url : Text
  pub token : Text

pub record HttpRequest : Type 0 where
  pub base : Text
  pub method : String
  pub path : Text
  pub body : Option Json
  pub authorization : Text

pub data Failure : Type 0 where
  not_logged_in misused disconnected undecodable : Failure
  refused : (method : String) (path message : Text) → Failure
  -- A line of a stream that the scanner has no room for; the lines before it were printed.
  overlong : (printed : List Text) → Failure

pub record Terminal : Type 0 where
  -- The credentials file.
  pub saved : Option Credentials
  -- The requests that were sent, newest first.
  pub sent : List HttpRequest
  pub answers : ℕ → Option Response
  pub count : ℕ

abbrev pub Cli : Type 0 → Type 0
Cli A = Exec Terminal Failure A

-- `saveCredentials`
unfoldable pub save : Credentials → Cli Unit
save c t = (ok tt, record t { saved = some c })

-- `loadCredentials`
unfoldable pub load : Cli Credentials
load t = (elim t.saved [ none ↦ err not_logged_in | some c ↦ ok c ], t)

pub record Client : Type 0 where
  pub api_url : Text
  pub token : Text

unfoldable pub new_client : Credentials → Client
new_client c = record {
  api_url = reverse (drop_while (λ b. b == b'/') (reverse c.api_url));
  token = c.token;
}

unfoldable pub authed : Cli Client
unfolding load new_client
authed = do c ← load; pure (new_client c)

-- The types of the fields that an answer is decoded into.
pub data Kind : Type 0 where
  a_number a_text a_boolean : Kind

pub data Shape : Type 0 where
  object list : List (String × Kind) → Shape

abbrev is_kind : Kind → Option Json → Bool
is_kind k none = true
is_kind k (some null) = true
is_kind a_number (some (number n)) = true
is_kind a_text (some (text s)) = true
is_kind a_boolean (some (boolean b)) = true
is_kind _ _ = false

unfoldable all_kinds : List (String × Kind) → Members → Bool
unfolding value_of
all_kinds [] ms = true
all_kinds ((key, kind) ∷ fs) ms = is_kind kind (value_of key ms) && all_kinds fs ms

unfoldable fits_object : List (String × Kind) → Json → Bool
unfolding all_kinds
fits_object fs null = true
fits_object fs (obj ms) = all_kinds fs ms
fits_object fs _ = false

unfoldable fit_objects : List (String × Kind) → Elems → Bool
unfolding fits_object
fit_objects fs nil = true
fit_objects fs (elem j es) = fits_object fs j && fit_objects fs es

-- Whether an answer decodes.
unfoldable pub fits : Shape → Json → Bool
unfolding fits_object fit_objects
fits (object fs) j = fits_object fs j
fits (list fs) null = true
fits (list fs) (arr es) = fit_objects fs es
fits (list fs) _ = false

abbrev pub error_text : Option Json → Text
error_text (some (text s)) = s
error_text _ = []

-- The message that an answer has in `error`.
abbrev error_field : Option Json → Text
error_field (some (obj ms)) = error_text (value_of "error" ms)
error_field _ = []

abbrev pub with_status : Text → ℕ → Text
with_status message status = message ++ (codes " (" ++ (format_nat status ++ codes ")"))

unfoldable pub decoded : Option Shape → Response → Result Failure (Option Json)
unfolding fits
decoded none r = ok none
decoded (some shape) r = if r.status == 204 then ok none else elim r.json [
  | none ↦ err undecodable
  | some j ↦ if fits shape j then ok (some j) else err undecodable
]

-- `request`, and the round trip.
unfoldable pub send : Client → String → Text → Option Json → Cli (Option Response)
send c method path body t = (
  ok (t.answers t.count),
  record t {
    sent =
        record {
          base = c.api_url;
          method = method;
          path = path;
          body = body;
          authorization = if c.token == [] then [] else codes "Bearer " ++ c.token;
        }
        ∷ t.sent;
    count = suc t.count;
  },
)

module _ (u : Unicode) where
  unfoldable pub server_error : Response → Text
  server_error r =
      if error_field r.json == []
      then with_status (trim_space u r.raw) r.status
      else with_status (error_field r.json) r.status

  unfoldable pub outcome :
      String → Text → Option Shape → Option Response → Result Failure (Option Json)
  unfolding server_error decoded
  outcome method path out none = err disconnected
  outcome method path out (some r) =
      if ltb r.status 200 || leb 300 r.status
      then err (refused method path (server_error r))
      else decoded out r

  -- `do`, of the name of a keyword.
  unfoldable pub ask : Client → String → Text → Option Json → Option Shape → Cli (Option Json)
  unfolding send outcome lift
  ask c method path body out = do r ← send c method path body; lift (outcome method path out r)

-- A flag for an id was given.
abbrev pub is_set : ℤ → Bool
is_set id = not (int_beq id (pos 0))

-- `len(rest) == 1`, and `rest[0]`.
unfoldable pub one_argument : List Text → Cli Text
one_argument (arg ∷ []) = pure arg
one_argument _ = raise misused
