-- ===== src/K8s/Isolation.antt =====
-- internal/k8s/reconcile.go with internal/naming/naming.go: the services of two orgs.
use text.Mathlib.TextEquality.{eq_iff}
use uran_api.Prelude.{
  ◌≡◌, ◌≢◌, refl, sym, ◌∙◌, ℕ, ◌≤◌, Text, true, false, Bool-cases, inl, inr, ◌==◌, string_eq,
  text_eq, text_beq_iff, if◌then◌else◌, Option, List, [], ◌∷◌, All, any, arith,
}
use uran_api.Go.Decimal.{max_int64}
use uran_api.Naming.{namespace_for_org}
use uran_api.Naming.Collisions.{namespace_for_org-injective}
use uran_api.K8s.{ServiceSpec}
use uran_api.K8s.Objects.{Key, same_key}
use uran_api.K8s.Wire.{Wire}
use uran_api.K8s.Workload.{Rollout, apply, delete}
use uran_api.K8s.Ledger.{standing, has}
use uran_api.K8s.Plan.{owned_keys, shared_keys}
use uran_api.K8s.Plan.Carried.{delete-Does}
use uran_api.K8s.Teardown.{apply-elsewhere, drops-elsewhere}

-- The namespace that an object lies in; a Namespace lies in itself.
abbrev pub home : Key → Text
home k = if k.kind == "Namespace" then k.name else k.namespace

same_key-home : (j k : Key) → same_key j k ≡ true → home j ≡ home k
unfolding same_key
same_key-home j k h =
    let kinds = (eq_iff j.kind k.kind).0 (ground (arith, h)) in
    let spaces = (text_beq_iff j.namespace k.namespace).0 (ground (arith, h)) in
    let names = (text_beq_iff j.name k.name).0 (ground (arith, h)) in rw (kinds, spaces, names) refl

all_away :
    (ks : List Key) (k : Key) (ns : Text)
    → All (λ j. home j ≡ ns) ks
    → home k ≢ ns
    → has ks k ≡ false
unfolding has any
all_away [] k ns a h = refl
all_away (j ∷ js) k ns a h = elim (Bool-cases (same_key j k)) [
  | inl e ↦ absurd (h (sym (same_key-home j k e) ∙ a.0))
  | inr e ↦ rw e (all_away js k ns a.1 h)
]

module _ (base_domain cert_issuer : Text) (observed : Text → Text → List (Option Rollout)) where
  -- Applying or deleting a workload of one org, with any outcome, leaves every object in the
  -- namespace of another org, and that namespace, as it was; ids are 64-bit numbers.
  pub apply-other_org :
      (s : ServiceSpec) (a b : ℕ) (k : Key) (w : Wire)
      → a ≤ max_int64
      → b ≤ max_int64
      → a ≢ b
      → s.namespace ≡ namespace_for_org a
      → home k ≡ namespace_for_org b
      → (standing (apply base_domain cert_issuer observed s w).1.log k ≡ standing w.log k)
        × (standing (delete s.namespace s.name w).1.log k ≡ standing w.log k)
  apply-other_org s a b k w ha hb differ here there =
      let away = λ (e : home k ≡ s.namespace).
        differ (sym (namespace_for_org-injective b a hb ha (sym there ∙ (e ∙ here)))) in
      let own =
        all_away (owned_keys s.namespace s.name) k s.namespace
          (refl, (refl, (refl, (refl, (refl, (refl, (refl, (refl, (refl, (refl, tt)))))))))) away in
      let common =
        all_away (shared_keys s.namespace) k s.namespace (refl, (refl, (refl, (refl, (refl, tt)))))
          away in
      (
        apply-elsewhere base_domain cert_issuer observed s k w own common,
        drops-elsewhere _ _ (delete-Does s.namespace s.name) k w own,
      )
