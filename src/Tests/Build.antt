-- ===== src/Tests/Build.antt =====
-- A build at a concrete input.
use uran_api.Prelude.{none, true, [], ◌∷◌}
use uran_api.Exec.{ok}
use uran_api.Go.Text.{codes}
use uran_api.Builder.{Request}
use uran_api.Build.{Machine, dispatch}
use uran_api.Build.Pushes.{Pushes, dispatch-Pushes}

abbrev site : Request
site = record {
  repo_url = codes "https://git/web";
  ref = codes "abc";
  image = codes "registry/svc-1:1";
  type = "web";
  build_args = (codes "PORT", codes "80") ∷ [];
}

-- Nothing fails.
abbrev idle : Machine
idle = record {
  logs = [];
  ran = [];
  count = 0;
  output = λ n. [];
  failure = λ n. none;
  scratch = ok (codes "/tmp/build-1");
  written = λ file. none;
  dockerfile = true;
}

dispatch-Pushes_example : Pushes (codes "registry/svc-1:1") idle (dispatch site idle)
dispatch-Pushes_example = dispatch-Pushes site idle
