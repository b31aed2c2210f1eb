-- ===== src/Controller/Delivered.antt =====
-- internal/controller with internal/k8s: from the deploy's row to what stands in the cluster.
use uran_api.Prelude.{
  arith, ◌≡◌, refl, ap, ◌∙◌, ℕ, Text, Bool, true, false, Option, some, List, [], ◌∷◌, find, ◌==◌,
  nat_eq, string_eq, text_eq, not, if◌then◌else◌,
}
use uran_api.Svctype
use uran_api.Deploy.{status_deploying, status_live}
use uran_api.Naming.{namespace_for_org, workload_name}
use uran_api.Store.{World, Healthy}
use uran_api.Store.Models.{Deploy, Service, Project}
use uran_api.Store.Deploys.{has_id, with_status}
use uran_api.K8s.{ServiceSpec, apply, has_disk, autoscaled}
use uran_api.K8s.Objects.{key, Deployment, deployment}
use uran_api.K8s.Wire.{Wire, done}
use uran_api.K8s.Workload.{deployment_of, app_container, Rollout}
use uran_api.K8s.Workload as Workload
use uran_api.K8s.Ledger.{standing}
use uran_api.K8s.Convergence.{apply-Settled}
use uran_api.K8s.Convergence.Completion.{Completes, apply-done}
use uran_api.Controller.{reconcile}
use uran_api.Controller.GoLive.{reconcile-live}

if-image :
    (b : Bool) (c d : Deployment) (image : Text)
    → c.container.image ≡ image
    → d.container.image ≡ image
    → (if b then c else d).container.image ≡ image
if-image true c d image hc hd = hc
if-image false c d image hc hd = hd

deployment_of-image : (s : ServiceSpec) → (deployment_of s).container.image ≡ s.image
unfolding deployment_of app_container
deployment_of-image s =
    if-image s.suspended _ _ s.image refl
      (if-image (has_disk s) _ _ s.image refl (if-image (not (autoscaled s)) _ _ s.image refl refl))

has_disk-size : (s : ServiceSpec) → has_disk s ≡ true → (s.disk_size == []) ≡ false
unfolding has_disk
has_disk-size s h = ground (arith, h)

module _ (base_domain cert_issuer : Text) (observed : Text → Text → List (Option Rollout)) where
  -- If no request to the database fails, the API server does all that it is asked, and the polls find
  -- a complete rollout, then the reconciliation of a deploy that is deploying, has an image, and has
  -- its service, which is not a cron job and whose disk size, where it has a disk, is a quantity, and its
  -- project makes the deploy live and asks once for a
  -- spec to be applied; and applying it leaves a Deployment with the image of the deploy standing in
  -- the namespace of the organization, under the name of the workload.
  pub reconcile-delivers :
      (id : ℕ) (w : World) (d : Deploy) (s : Service) (p : Project) (v : Wire)
      → Healthy w
      → ((n : ℕ) → v.answers n ≡ done)
      → ((namespace name : Text) → Completes (observed namespace name))
      → find (has_id id) w.deploys ≡ some d
      → d.status ≡ status_deploying
      → (d.image == []) ≡ false
      → find (λ (x : Service). x.id == d.service_id) w.services ≡ some s
      → (s.type == Svctype.cron) ≡ false
      → ((s.disk_size == []) ≡ false → v.quantity s.disk_size ≡ true)
      → find (λ (x : Project). x.id == s.project_id) w.projects ≡ some p
      → (find (has_id id) (reconcile id w).1.deploys ≡ some (with_status status_live w.now d))
        × ((spec : ServiceSpec) × (dep : Deployment) × ((reconcile id w).1.calls
              ≡ apply spec ∷ w.calls)
            × (standing (Workload.apply base_domain cert_issuer observed spec v).1.log (
                  key "Deployment"
                    (namespace_for_org p.org_id)
                    (workload_name s.slug d.kind d.pr_number))
                ≡ some (deployment dep))
            × (dep.container.image ≡ d.image))
  reconcile-delivers id w d s p v h answers polls f st i fs c sized fp =
      let (live, (spec, called, describes)) = reconcile-live id w d s p h f st i fs fp in
      let settled = apply-Settled base_domain cert_issuer spec observed v (
        apply-done base_domain cert_issuer observed spec v answers
          (λ _ disk.
            rw describes.disk_size (sized (rw (← describes.disk_size) (has_disk-size spec disk))))
          (λ _. polls spec.namespace spec.name)) in
      (
        live,
        (
          spec,
          deployment_of spec,
          called,
          rw (← describes.namespace, ← describes.name)
              (settled.running (ap (λ t. t == Svctype.cron) describes.type ∙ c)),
          deployment_of-image spec ∙ describes.image,
        ),
      )
