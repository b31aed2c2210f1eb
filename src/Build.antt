-- ===== src/Build.antt =====
-- internal/build: the backends. What a command prints and how it ends are parameters, by its number,
-- and so are the results of the calls on files; the removal of the scratch directory is left out.
pub mod Steps
pub mod Pushes
use uran_api.Prelude.{
  ℕ, suc, String, Text, Bool, true, false, Option, none, some, List, [], ◌∷◌, ◌++◌, ◌==◌, nat_eq,
  text_eq, string_eq, ltb, map, if◌then◌else◌,
}
use uran_api.Exec.{Result, ok, err, Exec, pure, raise, lift, ◌>>=◌, ◌>>◌}
use uran_api.Go.Decimal.{format_nat}
use uran_api.Go.Text.{codes, join}
use uran_api.Builder.{Request}
use uran_api.Svctype

pub record Command : Type 0 where
  pub dir : Text
  pub name : Text
  pub args : List Text

pub record Machine : Type 0 where
  pub logs : Text
  -- The commands that were run, newest first, each with its error if it failed.
  pub ran : List (Command × Option Text)
  pub count : ℕ
  pub output : ℕ → Text
  pub failure : ℕ → Option Text
  -- `os.MkdirTemp`, `os.WriteFile` by the name of the file, and whether the clone has a Dockerfile.
  pub scratch : Result Text Text
  pub written : Text → Option Text
  pub dockerfile : Bool

abbrev pub Build : Type 0 → Type 0
Build A = Exec Machine Text A

unfoldable pub say : Text → Build Unit
say line m = (ok tt, record m { logs = m.logs ++ (line ++ codes "\n") })

abbrev pub ended : Text → Option Text → Result Text Unit
ended name none = ok tt
ended name (some why) = err (name ++ (codes ": " ++ why))

unfoldable pub execute : Command → Build Unit
execute c m = (
  ended c.name (m.failure m.count),
  record m {
    logs = m.logs ++ m.output m.count;
    ran = (c, m.failure m.count) ∷ m.ran;
    count = suc m.count;
  },
)

-- `joinArgs` is `join`.
abbrev pub echoed : Text → List Text → Text
echoed name args = codes "$ " ++ (name ++ (codes " " ++ join (codes " ") args))

unfoldable pub run_stream : Text → Text → List Text → Build Unit
run_stream dir name args =
    say (echoed name args) >> execute (record { dir = dir; name = name; args = args })

unfoldable pub clone_repo : Text → Text → Text → Build Unit
clone_repo url ref dir = do
  run_stream [] (codes "git") (codes "clone" ∷ url ∷ dir ∷ [])
  if ref == [] then pure tt else run_stream dir (codes "git") (codes "checkout" ∷ ref ∷ [])

-- The order of `sort.Strings`, on code points.
unfoldable text_less : Text → Text → Bool
text_less s [] = false
text_less [] (d ∷ t) = true
text_less (c ∷ s) (d ∷ t) = if c == d then text_less s t else ltb c d

unfoldable insert_arg : Text × Text → List (Text × Text) → List (Text × Text)
unfolding text_less
insert_arg a [] = a ∷ []
insert_arg a (b ∷ bs) = if text_less b.0 a.0 then b ∷ insert_arg a bs else a ∷ b ∷ bs

unfoldable sort_args : List (Text × Text) → List (Text × Text)
unfolding insert_arg
sort_args [] = []
sort_args (a ∷ as_) = insert_arg a (sort_args as_)

abbrev flag_args : Text → List (Text × Text) → List Text
flag_args flag [] = []
flag_args flag (a ∷ as_) = flag ∷ (a.0 ++ b'=' ∷ a.1) ∷ flag_args flag as_

unfoldable pub build_arg_flags : Text → List (Text × Text) → List Text
unfolding sort_args
build_arg_flags flag args = flag_args flag (sort_args args)

abbrev pub dir_made : Result Text Text → Result Text Text
dir_made (ok dir) = ok dir
dir_made (err why) = err (codes "create build dir: " ++ why)

unfoldable pub make_dir : Build Text
make_dir m = (dir_made m.scratch, m)

abbrev pub file_written : Text → Option Text → Result Text Unit
file_written file none = ok tt
file_written file (some why) = err (codes "write " ++ (file ++ (codes ": " ++ why)))

unfoldable pub write_file : Text → Build Unit
write_file file m = (file_written file (m.written file), m)

unfoldable pub has_dockerfile : Build Bool
has_dockerfile m = (ok m.dockerfile, m)

unfoldable pub docker_build : Text → Request → Build Unit
docker_build dir q = do
  say (codes "detected Dockerfile — building with docker build")
  run_stream dir (codes "docker") (
      codes "build"
      ∷ codes "-t"
      ∷ q.image
      ∷ (build_arg_flags (codes "--build-arg") q.build_args ++ codes "." ∷ []))

unfoldable pub nixpacks_build : Text → Request → Build Unit
nixpacks_build dir q = do
  say (codes "no Dockerfile — building with Nixpacks")
  run_stream [] (codes "nixpacks") (
      codes "build"
      ∷ dir
      ∷ codes "--name"
      ∷ q.image
      ∷ codes "--cache-key"
      ∷ q.image
      ∷ build_arg_flags (codes "--env") q.build_args)

-- The image is returned where the push succeeds.
unfoldable pub push : Text → Text → Build Text
push dir image = do run_stream dir (codes "docker") (codes "push" ∷ image ∷ []); pure image

unfoldable pub code_build : Request → Build Text
code_build q = do
  dir ← make_dir
  clone_repo q.repo_url q.ref dir
  found ← has_dockerfile
  if found then docker_build dir q else nixpacks_build dir q
  push [] q.image

unfoldable pub static_build : Request → Build Text
static_build q = do
  dir ← make_dir
  clone_repo q.repo_url q.ref dir
  write_file (codes "Dockerfile")
  write_file (codes ".dockerignore")
  run_stream dir (codes "docker") (codes "build" ∷ codes "-t" ∷ q.image ∷ codes "." ∷ [])
  push dir q.image

-- `Dispatcher.Build`
unfoldable pub dispatch : Request → Build Text
dispatch q = if q.type == Svctype.static then static_build q else code_build q
