-- ===== src/Client/Logs.antt =====
-- cmd/uran/logs.go: the streams of logs.
use uran_api.Prelude.{
  ℕ, ltb, ℤ, Text, Option, none, some, List, [], ◌∷◌, ◌++◌, ◌==◌, nat_eq, ◌||◌, if◌then◌else◌,
}
use uran_api.Exec.{Result, ok, err, pure, lift, ◌>>=◌, ◌>>◌, guard}
use uran_api.Go.Text.{codes, cut_prefix, split, byte_length}
use uran_api.Go.Decimal.{format_int}
use uran_api.Go.Unicode.{Unicode}
use uran_api.Go.Http.{Response}
use uran_api.Client.{
  Cli, Failure, misused, disconnected, refused, overlong, authed, send, is_set, server_error,
}

-- `bufio.ScanLines` takes one carriage return off the end of a line.
unfoldable pub drop_cr : Text → Text
drop_cr [] = []
drop_cr (c ∷ []) = if c == 13 then [] else c ∷ []
drop_cr (c ∷ d ∷ s) = c ∷ drop_cr (d ∷ s)

-- The loop over the lines ends without an error, or with the scanner's; both with what is printed.
abbrev pub Scanned : Type 0
Scanned = Result (List Text) (List Text)

abbrev pub add_line : Option Text → Scanned → Scanned
add_line none s = s
add_line (some l) (ok ls) = ok (l ∷ ls)
add_line (some l) (err ls) = err (l ∷ ls)

-- `1<<20`: a line of as many bytes does not fit into the scanner's buffer.
abbrev pub scanner_limit : ℕ
scanner_limit = 1048576

unfoldable pub data_of : List Text → Scanned
unfolding cut_prefix drop_cr byte_length
data_of [] = ok []
data_of (l ∷ ls) =
    let rest = data_of ls in
    if ltb (byte_length l) scanner_limit
    then add_line (cut_prefix (codes "data: ") (drop_cr l)) rest
    else err []

abbrev pub ended : Scanned → Result Failure (List Text)
ended (ok ls) = ok ls
ended (err ls) = err (overlong ls)

-- What the loop over the lines of a stream prints.
unfoldable pub data_lines : Text → Scanned
unfolding data_of split
data_lines raw = data_of (split 10 raw)

module _ (u : Unicode) where
  unfoldable pub streamed : Text → Option Response → Result Failure Text
  unfolding server_error
  streamed path none = err disconnected
  streamed path (some r) =
      if r.status == 200 then ok r.raw else err (refused "GET" path (server_error u r))

  unfoldable pub stream : Text → Cli Text
  unfolding streamed send authed
  stream path = do c ← authed; r ← send c "GET" path none; lift (streamed path r)

  unfoldable pub stream_build_logs : ℤ → Cli (List Text)
  unfolding stream data_lines
  stream_build_logs deploy = do
    raw ← stream (codes "/v1/deploys/" ++ (format_int deploy ++ codes "/logs"))
    lift (ended (data_lines raw))

  unfoldable pub stream_runtime_logs : ℤ → Cli (List Text)
  unfolding stream
  stream_runtime_logs service = do
    raw ← stream (codes "/v1/services/" ++ (format_int service ++ codes "/runtime-logs"))
    pure (raw ∷ [])

  unfoldable pub cmd_logs : ℤ → ℤ → Cli (List Text)
  unfolding stream_build_logs stream_runtime_logs
  cmd_logs deploy service = do
    guard (is_set deploy || is_set service) misused
    if is_set service then stream_runtime_logs service else stream_build_logs deploy
