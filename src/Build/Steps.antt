-- ===== src/Build/Steps.antt =====
-- internal/build: what the steps of a build do to a machine.
use uran_api.Prelude.{
  ◌≡◌, refl, sym, ap, ◌∙◌, arith, ℕ, suc, Text, Bool, true, false, Option, none, some, List, [],
  ◌∷◌, ◌++◌, text_eq, string_eq, map, if◌then◌else◌,
}
use mathlib.Core.List.{append_assoc, map-append}
use uran_api.Exec.{Result, ok, err, pure, continue, ◌>>=◌}
use uran_api.Go.Text.{codes}
use uran_api.Build.{
  Command, Machine, Build, ended, echoed, say, execute, run_stream, dir_made, make_dir,
  file_written, write_file, has_dockerfile, push,
}

abbrev pub finished : Command → Command × Option Text
finished c = (c, none)

-- The commands of a machine that came to another, which succeeded.
abbrev pub Ran : List Command → Machine → Machine → Type 0
Ran cs m m' = m'.ran ≡ map finished cs ++ m.ran

-- Nothing fails.
abbrev pub Calm : Machine → Type 0
Calm m =
    ((n : ℕ) → m.failure n ≡ none)
    × (((dir : Text) × (m.scratch ≡ ok dir)) × ((file : Text) → m.written file ≡ none))

abbrev pub Went : Machine → Machine → Type 0
Went m m' = ((cs : List Command) × Ran cs m m') × (Calm m → Calm m')

abbrev pub After : {A : Type 0} → Machine → Result Text A × Machine → Type 0
After m (err why, m') = Calm m → ⊥
After m (ok a, m') = Went m m'

abbrev pub push_command : Text → Text → Command
push_command dir image = record {
  dir = dir;
  name = codes "docker";
  args = codes "push" ∷ image ∷ [];
}

-- The commands succeeded, and the last of them was the push of the image.
abbrev pub Pushed : Text → Machine → Machine → Type 0
Pushed image m m' = (dir : Text) × ((cs : List Command) × Ran (push_command dir image ∷ cs) m m')

abbrev pub Final : Text → Machine → Result Text Text × Machine → Type 0
Final image m (err why, m') = Calm m → ⊥
Final image m (ok i, m') = (i ≡ image) × Pushed image m m'

Ran-trans :
    (cs ds : List Command) (m m' m'' : Machine) → Ran cs m m' → Ran ds m' m'' → Ran (ds ++ cs) m m''
Ran-trans cs ds m m' m'' r s =
    s
    ∙ ap (λ l. map finished ds ++ l) r
    ∙ sym (append_assoc (map finished ds) (map finished cs) m.ran)
    ∙ ap (λ l. l ++ m.ran) (sym (map-append finished ds cs))

module _ {A : Type 0} where
  After-trans :
      (m m' : Machine) → Went m m' → (p : Result Text A × Machine) → After m' p → After m p
  After-trans m m' w (err why, m'') h = λ calm. h (w.1 calm)
  After-trans m m' w (ok a, m'') h =
      ((h.0.0 ++ w.0.0, Ran-trans w.0.0 h.0.0 m m' m'' w.0.1 h.0.1), λ calm. h.1 (w.1 calm))

Final-trans :
    (image : Text) (m m' : Machine)
    → Went m m'
    → (p : Result Text Text × Machine) → Final image m' p
    → Final image m p
Final-trans image m m' w (err why, m'') h = λ calm. h (w.1 calm)
Final-trans image m m' w (ok i, m'') h = (
  h.0,
  (
    h.1.0,
    (h.1.1.0 ++ w.0.0, Ran-trans w.0.0 (push_command h.1.0 image ∷ h.1.1.0) m m' m'' w.0.1 h.1.1.1),
  ),
)

pub record Steps (A : Type 0) (f : Build A) : Type 0 where
  pub at : (m : Machine) → After m (f m)

pub record Ends (image : Text) (f : Build Text) : Type 0 where
  pub at : (m : Machine) → Final image m (f m)

module _ {A : Type 0} where
  pub then_Steps :
      {B : Type 0} {f : Build A} {g : A → Build B}
      → Steps A f
      → ((a : A) → Steps B (g a))
      → Steps B (f >>= g)
  unfolding ◌>>=◌
  then_Steps {B} {f} {g} h k = record { at = λ m. go m (f m) (h.at m) }
    where
      go : (m : Machine) (p : Result Text A × Machine) → After m p → After m (continue p.0 g p.1)
      go m (err why, m') e = e
      go m (ok a, m') e = After-trans m m' e (g a m') ((k a).at m')

  pub then_Ends :
      {image : Text} {f : Build A} {g : A → Build Text}
      → Steps A f
      → ((a : A) → Ends image (g a))
      → Ends image (f >>= g)
  unfolding ◌>>=◌
  then_Ends {image} {f} {g} h k = record { at = λ m. go m (f m) (h.at m) }
    where
      go :
          (m : Machine) (p : Result Text A × Machine)
          → After m p
          → Final image m (continue p.0 g p.1)
      go m (err why, m') e = e
      go m (ok a, m') e = Final-trans image m m' e (g a m') ((k a).at m')

  pub if_Steps : (b : Bool) {f g : Build A} → Steps A f → Steps A g → Steps A (if b then f else g)
  if_Steps true h k = h
  if_Steps false h k = k

stays : (m : Machine) → Went m m
stays m = (([], refl), λ calm. calm)

pub pure-Steps : Steps Unit (pure tt)
unfolding pure
pure-Steps = record { at = stays }

pub say-Steps : (line : Text) → Steps Unit (say line)
unfolding say
say-Steps line = record { at = stays }

pub has_dockerfile-Steps : Steps Bool has_dockerfile
unfolding has_dockerfile
has_dockerfile-Steps = record { at = stays }

pub make_dir-Steps : Steps Text make_dir
unfolding make_dir
make_dir-Steps = record { at = λ m. go m m.scratch refl }
  where
    go : (m : Machine) (r : Result Text Text) → m.scratch ≡ r → After m (dir_made r, m)
    go m (ok dir) e = stays m
    go m (err why) e = λ calm. absurd (ground (arith, sym e ∙ calm.1.0.1))

pub write_file-Steps : (file : Text) → Steps Unit (write_file file)
unfolding write_file
write_file-Steps file = record { at = λ m. go m (m.written file) refl }
  where
    go : (m : Machine) (o : Option Text) → m.written file ≡ o → After m (file_written file o, m)
    go m none e = stays m
    go m (some why) e = λ calm. absurd (ground (arith, sym e ∙ calm.1.1 file))

abbrev Executed : Command → Machine → Result Text Unit × Machine → Type 0
Executed c m (err why, m') = Calm m → ⊥
Executed c m (ok a, m') = Ran (c ∷ []) m m' × (Calm m → Calm m')

execute-Executed : (c : Command) (m : Machine) → Executed c m (execute c m)
unfolding execute
execute-Executed c m = go (m.failure m.count) refl
  where
    go :
        (o : Option Text)
        → m.failure m.count ≡ o
        → Executed c m (
          ended c.name o,
          record m { logs = m.logs ++ m.output m.count; ran = (c, o) ∷ m.ran; count = suc m.count },
        )
    go none e = (refl, λ calm. calm)
    go (some why) e = λ calm. absurd (ground (arith, sym e ∙ calm.0 m.count))

execute-Steps : (c : Command) → Steps Unit (execute c)
execute-Steps c = record { at = λ m. go m (execute c m) (execute-Executed c m) }
  where
    go : (m : Machine) (p : Result Text Unit × Machine) → Executed c m p → After m p
    go m (err why, m') h = h
    go m (ok a, m') h = ((c ∷ [], h.0), h.1)

pub run_stream-Steps : (dir name : Text) (args : List Text) → Steps Unit (run_stream dir name args)
unfolding run_stream
run_stream-Steps dir name args = then_Steps (say-Steps _) (λ a. execute-Steps _)

pub push-Ends : (dir image : Text) → Ends image (push dir image)
unfolding push run_stream say ◌>>=◌ pure
push-Ends dir image = record {
  at = λ m.
      let spoken = (say (echoed (codes "docker") (codes "push" ∷ image ∷ [])) m).1 in
      go m (execute (push_command dir image) spoken)
        (execute-Executed (push_command dir image) spoken);
}
  where
    go :
        (m : Machine) (p : Result Text Unit × Machine)
        → Executed (push_command dir image) m p
        → Final image m (continue p.0 (λ a. pure image) p.1)
    go m (err why, m') h = h
    go m (ok a, m') h = (refl, (dir, ([], h.0)))
