-- ===== src/Go/Map.antt =====
-- Go's `map[string]V`, as an association list without a second entry for a key.
use uran_api.Prelude.{Text, List, [], ◌∷◌, if◌then◌else◌, ◌==◌, text_eq}

-- `m[key] = value`
unfoldable pub put {ℓ} : {V : Type ℓ} → Text → V → List (Text × V) → List (Text × V)
put key value [] = (key, value) ∷ []
put key value (entry ∷ rest) =
    if entry.0 == key then (entry.0, value) ∷ rest else entry ∷ put key value rest
