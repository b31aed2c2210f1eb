-- ===== src/K8s/Teardown.antt =====
-- internal/k8s/reconcile.go: what `Delete` leaves after `Apply`.
use uran_api.Prelude.{
  ◌≡◌, refl, sym, ap, ◌∙◌, Text, true, false, Bool-cases, inl, inr, Option, none, List, map,
  if◌then◌else◌,
}
use mathlib.Core.Option.{get_or}
use uran_api.Exec.{ok}
use uran_api.K8s.{ServiceSpec}
use uran_api.K8s.Objects.{Body, Key}
use uran_api.K8s.Wire.{Wire, Action, drop}
use uran_api.K8s.Workload.{Rollout, apply, delete}
use uran_api.K8s.Ledger.{standing, has}
use uran_api.K8s.Ledger.Laws.{carry-elsewhere, carry-log, standing-onto}
use uran_api.K8s.Ledger.Verdicts.{verdict-drops, drops-concern}
use uran_api.K8s.Ledger.Carried.{Does, Ends-state}
use uran_api.K8s.Plan.{plan, owned_keys, shared_keys}
use uran_api.K8s.Plan.Carried.{apply-Ends, delete-Does, rollout_of-Quiet}
use uran_api.K8s.Plan.Keys.{plan-concerns}

-- What stood before a method that only deletes stands after it, but for the keys that it deletes.
module _ (m : Action Unit) (ks : List Key) (d : Does m (map drop ks)) (k : Key) (w : Wire) where
  pub drops-gone : (m w).0 ≡ ok tt → has ks k ≡ true → standing (m w).1.log k ≡ none
  drops-gone h g =
      ap (λ x. standing x.1.log k) (d.at w)
      ∙ (ap (λ log. standing log k) (carry-log (map drop ks) w (sym (ap (λ x. x.0) (d.at w)) ∙ h))
          ∙ (standing-onto (map drop ks) w.log k
              ∙ ap (λ v. get_or v (standing w.log k)) (verdict-drops ks k g)))

  pub drops-elsewhere : has ks k ≡ false → standing (m w).1.log k ≡ standing w.log k
  drops-elsewhere g =
      ap (λ x. standing x.1.log k) (d.at w)
      ∙ carry-elsewhere (map drop ks) k w (drops-concern ks k ∙ g)

pub drops_all :
    (m : Action Unit) (ks : List Key) (d : Does m (map drop ks)) (k : Key) (w : Wire)
    → (m w).0 ≡ ok tt
    → {before : Option Body} → (has ks k ≡ false → standing w.log k ≡ before)
    → standing (m w).1.log k ≡ (if has ks k then none else before)
drops_all m ks d k w h same = elim (Bool-cases (has ks k)) [
  | inl e ↦ drops-gone m ks d k w h e ∙ rw e refl
  | inr e ↦ drops-elsewhere m ks d k w e ∙ (same e ∙ rw e refl)
]

module _ (base_domain cert_issuer : Text) (observed : Text → Text → List (Option Rollout)) where
  -- Whatever the outcome of `Apply`, what is not the workload's own and not shared by the services of
  -- its namespace stands as before.
  pub apply-elsewhere :
      (s : ServiceSpec) (k : Key) (w : Wire)
      → has (owned_keys s.namespace s.name) k ≡ false
      → has (shared_keys s.namespace) k ≡ false
      → standing (apply base_domain cert_issuer observed s w).1.log k ≡ standing w.log k
  apply-elsewhere s k w own common =
      let made = apply-Ends base_domain cert_issuer observed s in
      ap (λ v. standing v.log k) (Ends-state _ _ _ made w (rollout_of-Quiet observed s))
      ∙ carry-elsewhere (plan base_domain cert_issuer s) k w
          (plan-concerns k base_domain cert_issuer s own common)

  -- However far `Apply` came, with or without an error, a `Delete` of the same workload that returns
  -- no error leaves none of the workload's own objects, and leaves every other object that is not
  -- shared by the services of the namespace as it was before the `Apply`.
  pub delete-apply :
      (s : ServiceSpec) (k : Key) (w : Wire)
      → has (shared_keys s.namespace) k ≡ false
      → let w' = (apply base_domain cert_issuer observed s w).1 in
        (delete s.namespace s.name w').0 ≡ ok tt
        → standing (delete s.namespace s.name w').1.log k
          ≡ (if has (owned_keys s.namespace s.name) k then none else standing w.log k)
  delete-apply s k w common h =
      drops_all _ _ (delete-Does s.namespace s.name) k _ h (λ own. apply-elsewhere s k w own common)
