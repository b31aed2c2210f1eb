-- ===== src/Client/Reaches.antt =====
-- cmd/uran with internal/api: the requests of the client, as the server takes them.
pub mod Deploys
pub mod Settings
pub mod Attachments
pub mod Databases
pub mod Account
pub mod Members
use uran_api.Prelude.{
  if◌then◌else◌, ◌≡◌, ◌≤◌, suc, refl, sym, ap, ◌∙◌, ℤ, pos, negsuc, ℕ, String, Text, Bool, true,
  false, Option, none, some, List, [], ◌∷◌, ◌++◌, ◌==◌, nat_eq, text_eq, text_beq, All, All-map,
  arith,
}
use uran_api.Go.Text.{codes, split}
use uran_api.Go.Text.Laws.{Free, split-Free, split-joined}
use uran_api.Go.Decimal.{format_int, format_nat, parse_int}
use uran_api.Go.Decimal.RoundTrip.{Digits, format_nat-Digits, IsInt64, parse_int-format_int}
use uran_api.Go.Json.{Json}
use uran_api.Exec.{pure, raise, lift, ◌>>=◌, guard}
use uran_api.Client.{
  Cli, Client, Credentials, HttpRequest, Shape, Terminal, misused, authed, load, new_client, send,
  ask, is_set,
}
use uran_api.Go.Unicode.{Unicode}
use uran_api.Api.Calls.{Call, read_body, call_of}
use uran_api.Client.Meaning.{id, Meaning, Reads, IsSegment, is_unreserved}
use uran_api.Api.Routes.{Mux, Finds, routes, fitting}

-- A printed number has no slash and is not empty.
no_slash : (c : ℕ) → b'0' ≤ c → (c == b'/') ≡ false
no_slash c h = ground arith

Digits-Free : (s : Text) → Digits s → Free b'/' s
Digits-Free s d = All-map _ _ s (λ c h. no_slash c h.0) d

format_int-Free : (z : ℤ) → Free b'/' (format_int z)
unfolding format_int
format_int-Free (pos n) = Digits-Free (format_nat n) (format_nat-Digits n)
format_int-Free (negsuc n) = (refl, Digits-Free (format_nat (suc n)) (format_nat-Digits (suc n)))

not_empty : (s : Text) (z : ℤ) → parse_int s ≡ some z → (s == []) ≡ false
unfolding parse_int text_beq
not_empty [] z h = absurd (ground (arith, h))
not_empty (c ∷ s) z h = refl

pub format_int-ne : (z : ℤ) → IsInt64 z → (format_int z == []) ≡ false
format_int-ne z h = not_empty (format_int z) z (parse_int-format_int z h)

pub split_id :
    (z : ℤ) (rest : Text)
    → split b'/' (format_int z ++ b'/' ∷ rest) ≡ format_int z ∷ split b'/' rest
split_id z rest = split-joined b'/' (format_int z) rest (format_int-Free z)

pub split_last : (z : ℤ) → split b'/' (format_int z) ≡ format_int z ∷ []
split_last z = split-Free b'/' (format_int z) (format_int-Free z)

pub IsSegment-Free : (s : Text) → IsSegment s → Free b'/' s
IsSegment-Free s h = All-map _ _ s (λ c g. other c g) h.1
  where
    other : (c : ℕ) → is_unreserved c ≡ true → (c == b'/') ≡ false
    other c g = ground arith

-- What holds of the texts that are not empty.
pub filled :
    (P : Text → Type 0) → ((c : ℕ) (s : Text) → P (c ∷ s)) → (s : Text) → (s == []) ≡ false → P s
unfolding text_beq
filled P f [] h = absurd (ground (arith, h))
filled P f (c ∷ s) h = f c s

pub filled_both :
    (P : Text → Text → Type 0)
    → ((c : ℕ) (r : Text) (d : ℕ) (s : Text) → P (c ∷ r) (d ∷ s))
    → (r : Text) → (r == []) ≡ false
    → (s : Text) → (s == []) ≡ false
    → P r s
filled_both P f r h s g =
    filled (λ r. P r s) (λ c r. filled (λ s. P (c ∷ r) s) (λ d s. f c r d s) s g) r h

-- What the client sends with its saved credentials.
abbrev pub request_of : Credentials → String → Text → Option Json → HttpRequest
request_of cred method path body = record {
  base = (new_client cred).api_url;
  method = method;
  path = path;
  body = body;
  authorization = if cred.token == [] then [] else codes "Bearer " ++ cred.token;
}

module _ (u : Unicode) (cred : Credentials) (t : Terminal) (h : t.saved ≡ some cred) where
  pub sent_free :
      (method : String) (path : Text) (body : Option Json) (out : Option Shape)
      → ((authed >>= λ c. ask u c method path body out) t).1.sent
        ≡ request_of cred method path body ∷ t.sent
  unfolding authed load new_client ask send ◌>>=◌ pure lift
  sent_free method path body out = rw h refl

  pub sent_by :
      (g : Bool) (method : String) (path : Text) (body : Option Json) (out : Option Shape)
      → g ≡ true
      → ((guard g misused >>= λ _. (authed >>= λ c. ask u c method path body out)) t).1.sent
        ≡ request_of cred method path body ∷ t.sent
  unfolding guard pure ◌>>=◌
  sent_by g method path body out e = rw e (sent_free method path body out)

-- The command sends one request, to the server of the saved credentials and with their token, and the
-- server hands it to the handler that is meant, with the parameters and the body that are meant.
pub record Reached (mux : Mux) (m : Cli (Option Json)) (w : Meaning) (cred : Credentials)
    (t : Terminal) : Type 0 where
  pub method : String
  pub path : Text
  pub body : Option Json
  pub params : List Text
  pub sent : (m t).1.sent ≡ request_of cred method path body ∷ t.sent
  pub taken :
      call_of mux method path body
      ≡ some (record { target = w.target; params = params; body = w.body })
  pub read : Reads w.arguments params

pub reached :
    (mux : Mux)
    → Finds mux
    → (m : Cli (Option Json)) (w : Meaning) (cred : Credentials) (t : Terminal)
    → (method : String) (path : Text) (body : Option Json) (params parts : List Text)
    → (m t).1.sent ≡ request_of cred method path body ∷ t.sent
    → split b'/' path ≡ parts
    → fitting routes method parts ≡ (w.target, params) ∷ []
    → read_body w.target body ≡ w.body
    → Reads w.arguments params
    → Reached mux m w cred t
unfolding call_of
reached mux finds m w cred t method path body params parts sent_ divided fit content read_ =
    record {
      method = method;
      path = path;
      body = body;
      params = params;
      sent = sent_;
      taken =
          rw
            (
              finds routes method path w.target params (ap (fitting routes method) divided ∙ fit),
              content,
            )
            refl;
      read = read_;
    }

-- The same for a path with one parameter, an id.
pub id-Reached :
    (mux : Mux)
    → Finds mux
    → (m : Cli (Option Json)) (w : Meaning) (cred : Credentials) (t : Terminal)
    → (method : String) (path : Text) (body : Option Json) (z : ℤ) (parts : Text → List Text)
    → IsInt64 z
    → (m t).1.sent ≡ request_of cred method path body ∷ t.sent
    → split b'/' path ≡ parts (format_int z)
    → ((c : ℕ) (s : Text) → fitting routes method (parts (c ∷ s)) ≡ (w.target, (c ∷ s) ∷ []) ∷ [])
    → read_body w.target body ≡ w.body
    → w.arguments ≡ id z ∷ []
    → Reached mux m w cred t
id-Reached mux finds m w cred t method path body z parts h sent_ divided fit content args =
    reached mux finds m w cred t method path body (format_int z ∷ []) (parts (format_int z)) sent_
      divided
      (filled (λ s. fitting routes method (parts s) ≡ (w.target, s ∷ []) ∷ []) fit (format_int z)
        (format_int-ne z h))
      content (rw args (parse_int-format_int z h, tt))
