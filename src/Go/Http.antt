-- ===== src/Go/Http.antt =====
-- net/http, as the client and the server use it.
use uran_api.Prelude.{ℕ, Text, Option}
use uran_api.Go.Json.{Json}

-- An answer, with the JSON value that its body is, if it is one.
pub record Response : Type 0 where
  pub status : ℕ
  pub raw : Text
  pub json : Option Json
