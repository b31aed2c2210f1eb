-- ===== src/Client/Streams.antt =====
-- cmd/uran/logs.go with internal/api/logstream_handlers.go: the lines of a build's log, from the
-- database to the user of the client.
use uran_api.Prelude.{
  ◌≡◌, ◌≤◌, suc, ◌+◌, ℕ, ℤ, refl, ap, ◌∙◌, sym, String, Text, true, false, Option, none, some, List,
  [], ◌∷◌, ◌++◌, ◌==◌, nat_eq, text_eq, text_beq, All, ltb, length, length-append, drop-append,
  arith, ◌⊎◌, inl, inr,
}
use mathlib.Core.List.{append_assoc, append-nil}
use uran_api.Go.Text.{codes, split, cut_prefix, byte_length}
use uran_api.Go.Text.Laws.{Free, split-Free, split-joined, cut_prefix-append}
use uran_api.Deploy.{build_running, build_succeeded, build_failed}
use uran_api.Store.Models.{Build}
use uran_api.Exec.{ok, lift, pure, ◌>>=◌}
use uran_api.Go.Unicode.{Unicode}
use uran_api.Store.{World}
use uran_api.Api.Access.{Request}
use uran_api.Client.{Credentials, Terminal, send, authed, load, new_client}
use uran_api.Client.Logs.{
  stream_build_logs, stream, streamed, drop_cr, add_line, data_of, data_lines, Scanned,
  scanner_limit, ended,
}
use uran_api.Api.Logs.{
  is_terminal_build, trim_newlines, frames, write_sse, write_sse_event, stream_logs,
  handle_deploy_logs,
}

-- A line that the client prints as it is: it has no newline, it does not end with a carriage return,
-- and with the six bytes `data: ` before it, it fits into the scanner's buffer.
abbrev pub IsLine : Text → Type 0
IsLine l = Free 10 l × (drop_cr l ≡ l) × (suc (6 + byte_length l) ≤ 1048576)

-- The lines that a build writes between two polls; the last of them is not blank.
abbrev pub IsBatch : List Text → Type 0
IsBatch [] = Unit
IsBatch (l ∷ []) = IsLine l × ((l == []) ≡ false)
IsBatch (l ∷ m ∷ ls) = IsLine l × IsBatch (m ∷ ls)

abbrev pub unlines : List Text → Text
unlines [] = []
unlines (l ∷ ls) = l ++ 10 ∷ unlines ls

trim-last : (l : Text) → Free 10 l → trim_newlines (l ++ 10 ∷ []) ≡ l
unfolding trim_newlines text_beq
trim-last [] f = refl
trim-last (c ∷ l) f = rw (f.0, trim-last l f.1) refl

append-filled : (l s : Text) → (s == []) ≡ false → (l ++ s == []) ≡ false
unfolding text_beq
append-filled [] s h = h
append-filled (c ∷ l) s h = refl

trim-append :
    (l s : Text) → (trim_newlines s == []) ≡ false → trim_newlines (l ++ s) ≡ l ++ trim_newlines s
unfolding trim_newlines
trim-append [] s h = refl
trim-append (c ∷ l) s h = rw (trim-append l s h, append-filled l (trim_newlines s) h) (ground arith)

trim-line :
    (l s : Text)
    → (trim_newlines s == []) ≡ false
    → trim_newlines (l ++ 10 ∷ s) ≡ l ++ 10 ∷ trim_newlines s
unfolding trim_newlines text_beq
trim-line l s h = trim-append l (10 ∷ s) (rw h refl) ∙ rw h refl

trim-filled :
    (l : Text) (ls : List Text)
    → IsBatch (l ∷ ls)
    → (trim_newlines (unlines (l ∷ ls)) == []) ≡ false
unfolding text_beq
trim-filled l [] b = rw (trim-last l b.0.0) b.1
trim-filled l (m ∷ ls) b =
    rw (trim-line l (unlines (m ∷ ls)) (trim-filled m ls b.1)) (append-filled l _ refl)

-- What is written of a batch is taken apart into its lines.
split-trim :
    (l : Text) (ls : List Text)
    → IsBatch (l ∷ ls)
    → split 10 (trim_newlines (unlines (l ∷ ls))) ≡ l ∷ ls
split-trim l [] b = rw (trim-last l b.0.0) (split-Free 10 l b.0.0)
split-trim l (m ∷ ls) b =
    rw (trim-line l (unlines (m ∷ ls)) (trim-filled m ls b.1))
      (split-joined 10 l _ b.0.0 ∙ ap (λ x. l ∷ x) (split-trim m ls b.1))

drop_cr-data : (l : Text) → drop_cr l ≡ l → drop_cr (codes "data: " ++ l) ≡ codes "data: " ++ l
unfolding drop_cr
drop_cr-data [] h = refl
drop_cr-data (c ∷ l) h = rw h refl

fits :
    (l : Text)
    → suc (6 + byte_length l) ≤ scanner_limit
    → ltb (byte_length (codes "data: " ++ l)) scanner_limit ≡ true
unfolding byte_length
fits l h = ground (arith, h)

data_of-line :
    (l : Text) (ls : List Text)
    → IsLine l
    → data_of ((codes "data: " ++ l) ∷ ls) ≡ add_line (some l) (data_of ls)
unfolding data_of
data_of-line l ls h = rw (fits l h.2) (
    ap (λ x. add_line (cut_prefix (codes "data: ") x) (data_of ls)) (drop_cr-data l h.1)
    ∙ ap (λ o. add_line o (data_of ls)) (cut_prefix-append (codes "data: ") l))

-- The lines are printed before the rest.
abbrev after : List Text → Scanned → Scanned
after [] s = s
after (l ∷ ls) s = add_line (some l) (after ls s)

after-ok : (ls ms : List Text) → after ls (ok ms) ≡ ok (ls ++ ms)
after-ok [] ms = refl
after-ok (l ∷ ls) ms = ap (add_line (some l)) (after-ok ls ms)

data_lines-line :
    (l rest : Text)
    → IsLine l
    → data_lines (codes "data: " ++ (l ++ 10 ∷ rest)) ≡ add_line (some l) (data_lines rest)
unfolding data_lines
data_lines-line l rest h =
    ap data_of (
      split-joined 10 (codes "data: " ++ l) rest
        (refl, (refl, (refl, (refl, (refl, (refl, h.0)))))))
    ∙ data_of-line l (split 10 rest) h

data_lines-blank : (rest : Text) → data_lines (10 ∷ rest) ≡ data_lines rest
unfolding data_lines data_of split cut_prefix drop_cr byte_length
data_lines-blank rest = refl

data_lines-frames :
    (ls : List Text) (rest : Text)
    → All IsLine ls
    → data_lines (frames ls ++ rest) ≡ after ls (data_lines rest)
unfolding frames
data_lines-frames [] rest h = refl
data_lines-frames (l ∷ ls) rest h =
    ap (λ x. data_lines (codes "data: " ++ x)) (append_assoc l (10 ∷ frames ls) rest)
    ∙ data_lines-line l (frames ls ++ rest) h.0
    ∙ ap (add_line (some l)) (data_lines-frames ls rest h.1)

IsBatch→All : (ls : List Text) → IsBatch ls → All IsLine ls
IsBatch→All [] b = tt
IsBatch→All (l ∷ []) b = (b.0, tt)
IsBatch→All (l ∷ m ∷ ls) b = (b.0, IsBatch→All (m ∷ ls) b.1)

data_lines-write_sse :
    (l : Text) (ls : List Text) (rest : Text)
    → IsBatch (l ∷ ls)
    → data_lines (write_sse (unlines (l ∷ ls)) ++ rest) ≡ after (l ∷ ls) (data_lines rest)
unfolding write_sse
data_lines-write_sse l ls rest b =
    ap (λ x. data_lines ((frames x ++ 10 ∷ []) ++ rest)) (split-trim l ls b)
    ∙ ap data_lines (append_assoc (frames (l ∷ ls)) (10 ∷ []) rest)
    ∙ data_lines-frames (l ∷ ls) (10 ∷ rest) (IsBatch→All (l ∷ ls) b)
    ∙ ap (after (l ∷ ls)) (data_lines-blank rest)

lines_and :
    (l : Text) (ls : List Text) (rest : Text) (ms : List Text)
    → IsBatch (l ∷ ls)
    → data_lines rest ≡ ok ms
    → data_lines (write_sse (unlines (l ∷ ls)) ++ rest) ≡ ok ((l ∷ ls) ++ ms)
lines_and l ls rest ms b e =
    data_lines-write_sse l ls rest b ∙ ap (after (l ∷ ls)) e ∙ after-ok (l ∷ ls) ms

-- What the polls of a client find: the log grows by a batch from one to the next, and the poll that
-- finds the last batch finds that the build has ended.
abbrev pub watched : Build → Text → List (List Text) → String → List (Option Build)
watched b seen [] status = some (record b { logs = seen; status = status }) ∷ []
watched b seen (ls ∷ []) status =
    some (record b { logs = seen ++ unlines ls; status = status }) ∷ []
watched b seen (ls ∷ m ∷ more) status =
    some (record b { logs = seen ++ unlines ls; status = build_running })
    ∷ watched b (seen ++ unlines ls) (m ∷ more) status

abbrev pub all_lines : List (List Text) → List Text
all_lines [] = []
all_lines (ls ∷ more) = ls ++ all_lines more

not_grown : (n : ℕ) → ltb n n ≡ false
not_grown n = ground arith

event_printed :
    (status : String)
    → (status ≡ build_succeeded) ⊎ (status ≡ build_failed)
    → (is_terminal_build status ≡ true)
      × (data_lines (write_sse_event (codes "end") (codes status)) ≡ ok (codes status ∷ []))
unfolding is_terminal_build write_sse_event data_lines split data_of cut_prefix drop_cr byte_length
event_printed status (inl e) = rw e (refl, refl)
event_printed status (inr e) = rw e (refl, refl)

grown_by :
    (seen : Text) (l : Text) (s : Text) → ltb (length seen) (length (seen ++ (l ++ 10 ∷ s))) ≡ true
grown_by seen l s = rw (length-append seen (l ++ 10 ∷ s), length-append l (10 ∷ s)) (ground arith)

printed :
    (b : Build) (seen : Text) (batches : List (List Text)) (status : String)
    → (status ≡ build_succeeded) ⊎ (status ≡ build_failed)
    → All IsBatch batches
    → data_lines (stream_logs (length seen) (watched b seen batches status))
      ≡ ok (all_lines batches ++ codes status ∷ [])
unfolding stream_logs
printed b seen [] status e h =
    rw (not_grown (length seen), (event_printed status e).0) (event_printed status e).1
printed b seen ([] ∷ []) status e h =
    rw (append-nil seen, not_grown (length seen), (event_printed status e).0)
      (event_printed status e).1
printed b seen ((l ∷ ls) ∷ []) status e h =
    rw
      (
        grown_by seen l (unlines ls),
        drop-append seen (unlines (l ∷ ls)),
        (event_printed status e).0,
      )
      (lines_and l ls _ (codes status ∷ []) h.0 (event_printed status e).1
        ∙ ap (λ x. ok (x ++ codes status ∷ [])) (sym (append-nil (l ∷ ls))))
printed b seen ([] ∷ m ∷ more) status e h =
    rw (append-nil seen, not_grown (length seen)) (printed b seen (m ∷ more) status e h.1)
printed b seen ((l ∷ ls) ∷ m ∷ more) status e h =
    rw (grown_by seen l (unlines ls), drop-append seen (unlines (l ∷ ls)))
      (lines_and l ls _ _ h.0 (printed b (seen ++ unlines (l ∷ ls)) (m ∷ more) status e h.1)
        ∙ ap ok (sym (append_assoc (l ∷ ls) (all_lines (m ∷ more)) (codes status ∷ []))))

handled :
    (r : Request) (param : Text) (polls : List (Option Build)) (w : World) (raw : Text)
    → (handle_deploy_logs r param polls w).0 ≡ ok raw
    → raw ≡ stream_logs 0 polls
unfolding handle_deploy_logs ◌>>=◌ pure
handled r param polls w raw h = ground (arith, h)

-- The user of `uran logs --deploy` reads the lines of the build's log, in their order and each one
-- once, and then the status that the build ended with, whatever lines came between two polls and
-- with the poll that finds the build ended, if they are whole lines, the last of each poll is not
-- blank, none ends with a carriage return, and each has less than 2 ^ 20 - 6 bytes; the handler lets
-- the caller see the deploy, and the client has saved credentials and reaches the server.
pub stream_build_logs-handle_deploy_logs :
    (u : Unicode) (b : Build) (batches : List (List Text)) (status : String)
    → (status ≡ build_succeeded) ⊎ (status ≡ build_failed)
    → All IsBatch batches
    → (r : Request) (param : Text) (w : World) (raw : Text)
    → (handle_deploy_logs r param (watched b [] batches status) w).0 ≡ ok raw
    → (deploy : ℤ) (cred : Credentials) (t : Terminal) → t.saved ≡ some cred
    → t.answers t.count ≡ some (record { status = 200; raw = raw; json = none })
    → (stream_build_logs u deploy t).0 ≡ ok (all_lines batches ++ codes status ∷ [])
unfolding stream_build_logs stream streamed send authed load new_client lift ◌>>=◌ pure
stream_build_logs-handle_deploy_logs u b batches status e h r param w raw g deploy cred t saved
      answer =
    rw (saved, answer, handled r param (watched b [] batches status) w raw g)
      (ap ended (printed b [] batches status e h))
