-- ===== src/Build/Pushes.antt =====
-- internal/build: what a build that succeeds has done.
use uran_api.Prelude.{
  ◌≡◌, ap, arith, Text, Bool, true, false, [], ◌==◌, text_eq, string_eq, if◌then◌else◌,
}
use uran_api.Exec.{Result, ok, err}
use uran_api.Builder.{Request}
use uran_api.Svctype
use uran_api.Build.{
  Machine, clone_repo, docker_build, nixpacks_build, code_build, static_build, dispatch,
}
use uran_api.Build.Steps.{
  Calm, Final, Pushed, Steps, Ends, then_Steps, then_Ends, if_Steps, pure-Steps, say-Steps,
  has_dockerfile-Steps, make_dir-Steps, write_file-Steps, run_stream-Steps, push-Ends,
}

clone_repo-Steps : (url ref dir : Text) → Steps Unit (clone_repo url ref dir)
unfolding clone_repo
clone_repo-Steps url ref dir =
    then_Steps (run_stream-Steps _ _ _)
      (λ a. if_Steps (ref == []) pure-Steps (run_stream-Steps _ _ _))

docker_build-Steps : (dir : Text) (q : Request) → Steps Unit (docker_build dir q)
unfolding docker_build
docker_build-Steps dir q = then_Steps (say-Steps _) (λ a. run_stream-Steps _ _ _)

nixpacks_build-Steps : (dir : Text) (q : Request) → Steps Unit (nixpacks_build dir q)
unfolding nixpacks_build
nixpacks_build-Steps dir q = then_Steps (say-Steps _) (λ a. run_stream-Steps _ _ _)

code_build-Ends : (q : Request) → Ends q.image (code_build q)
unfolding code_build
code_build-Ends q = then_Ends make_dir-Steps (λ dir. then_Ends (clone_repo-Steps _ _ _) (λ a.
    then_Ends has_dockerfile-Steps (λ found.
      then_Ends (if_Steps found (docker_build-Steps dir q) (nixpacks_build-Steps dir q))
        (λ b. push-Ends _ _))))

static_build-Ends : (q : Request) → Ends q.image (static_build q)
unfolding static_build
static_build-Ends q = then_Ends make_dir-Steps (λ dir. then_Ends (clone_repo-Steps _ _ _) (λ a.
    then_Ends (write_file-Steps _) (λ b.
      then_Ends (write_file-Steps _)
        (λ c. then_Ends (run_stream-Steps _ _ _) (λ d. push-Ends _ _)))))

dispatch-Ends : (q : Request) → Ends q.image (dispatch q)
unfolding dispatch
dispatch-Ends q = go (q.type == Svctype.static)
  where
    go : (b : Bool) → Ends q.image (if b then static_build q else code_build q)
    go true = static_build-Ends q
    go false = code_build-Ends q

-- What a build comes to.
abbrev pub Pushes : Text → Machine → Result Text Text × Machine → Type 0
Pushes image m (outcome, m') =
    (Calm m → outcome ≡ ok image) × ((i : Text) → outcome ≡ ok i → (i ≡ image) × Pushed image m m')

-- A build of any type returns the image that was asked for where no command and no call on files
-- fails; and where it returns an image, that is the one asked for, each command that it ran
-- succeeded, and the last of them was the push of that image.
pub dispatch-Pushes : (q : Request) (m : Machine) → Pushes q.image m (dispatch q m)
dispatch-Pushes q m = go (dispatch q m) ((dispatch-Ends q).at m)
  where
    go : (p : Result Text Text × Machine) → Final q.image m p → Pushes q.image m p
    go (err why, m') h = ((λ calm. absurd (h calm)), λ i e. absurd (ground (arith, e)))
    go (ok j, m') h = ((λ calm. ap ok h.0), λ i e. (cc (e, h.0), h.1))
