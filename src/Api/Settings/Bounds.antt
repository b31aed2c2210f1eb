-- ===== src/Api/Settings/Bounds.antt =====
-- The numbers that the scale handler stores.
use uran_api.Api.Settings.Rows.{require_service_access-Same, finished, found}
use uran_api.Prelude.{
  zero, suc, negsuc, String, Text, refl, ap, ◌∙◌, sym, some, find, find-update, find-holds, List, ℤ,
  pos, ◌≤ℤ◌, ◌≡◌, ◌⊎◌, inl, inr, true, false, arith, string_eq, lt_int, lt_int-le, Bool-cases,
}
use uran_api.Exec.{Result, ok, err, continue, ◌>>=◌, lift, pure}
use uran_api.Store.{World, statement}
use uran_api.Store.Services.{is_service, update_service, set_service_scaling}
use uran_api.Api.Access.{Request, Handler, require_service_access, decoded, Refusal}
use uran_api.Go.Text.{codes}
use uran_api.Instance.{is_valid}
use uran_api.Store.Models.{Service}
use uran_api.Api.Settings.{Scale, at_least_one, checked_scale, store_and_apply, handle_scale}

pub at_least_one-le : (n : ℤ) → pos 1 ≤ℤ at_least_one n
unfolding at_least_one
at_least_one-le n = elim (Bool-cases (lt_int n (pos 1))) [
  | inl e ↦ rw e (omega arith)
  | inr e ↦ rw e (lt_int-le n (pos 1) e)
]

-- At least one replica, a known size, and either autoscaling off, or at least one replica as the
-- minimum and a maximum that is not below it.
abbrev pub IsScaled : ℤ → String → ℤ → ℤ → Type 0
IsScaled replicas size low high =
    (pos 1 ≤ℤ replicas)
    × (is_valid size ≡ true)
    × ((lt_int (pos 0) high ≡ false) ⊎ ((pos 1 ≤ℤ low) × (low ≤ℤ high)))

checked_scale-bounds :
    (svc : Service) (req q : Scale)
    → checked_scale svc req ≡ ok q
    → IsScaled q.replicas q.instance_size q.min_replicas q.max_replicas
unfolding checked_scale
checked_scale-bounds svc req q e = ground (
  arith,
  at_least_one-le req.replicas,
  at_least_one-le req.min_replicas,
  lt_int-le q.max_replicas q.min_replicas,
)

at_least_one-same : (n : ℤ) → pos 1 ≤ℤ n → at_least_one n ≡ n
unfolding at_least_one
at_least_one-same (pos zero) h = ground arith
at_least_one-same (pos (suc n)) h = ground arith
at_least_one-same (negsuc n) h = ground arith

-- What is stored for a request: its own replicas, if there are any, and its own maximum.
pub record Answers (req q : Scale) : Type 0 where
  pub scaled : IsScaled q.replicas q.instance_size q.min_replicas q.max_replicas
  pub asked : pos 1 ≤ℤ req.replicas → q.replicas ≡ req.replicas
  pub most : q.max_replicas ≡ req.max_replicas

checked_scale-Answers :
    (svc : Service) (req q : Scale) → checked_scale svc req ≡ ok q → Answers req q
unfolding checked_scale
checked_scale-Answers svc req q e = record {
  scaled = checked_scale-bounds svc req q e;
  asked = λ h. ground (arith, e, at_least_one-same req.replicas h);
  most = ground (arith, e);
}

abbrev with_scale : Scale → Service → Service
with_scale q s = record s {
  replicas = q.replicas;
  instance_size = q.instance_size;
  min_replicas = q.min_replicas;
  max_replicas = q.max_replicas;
}

stored_row :
    (svc : Service) (q : Scale) (w : World)
    → (set_service_scaling svc.id q.replicas q.instance_size q.min_replicas q.max_replicas w).0
      ≡ ok tt
    → find (is_service svc.id) w.services ≡ some svc
    → find
        (is_service svc.id)
        (set_service_scaling svc.id q.replicas q.instance_size q.min_replicas q.max_replicas
          w).1.services
      ≡ some (with_scale q svc)
unfolding set_service_scaling update_service statement
stored_row svc q w h e = ground (
  arith,
  h,
  e,
  find-update (is_service svc.id) (is_service svc.id) (with_scale q) w.services (λ x. refl),
  find-holds (is_service svc.id) w.services svc e,
)

-- The row of a service in a table, with the numbers that a request asks for.
pub record Stored (svc : Service) (req : Scale) (ss : List Service) : Type 0 where
  pub scale : Scale
  pub row : find (is_service svc.id) ss ≡ some (with_scale scale svc)
  pub answers : Answers req scale

-- What is left of `handle_scale` once the request was checked.
abbrev storing : Service → Scale → Handler Unit
storing svc q =
    store_and_apply svc.id
      (set_service_scaling svc.id q.replicas q.instance_size q.min_replicas q.max_replicas)
      (codes "could not update scaling")

stored :
    (svc : Service) (req : Scale) (outcome : Result Refusal Scale) (w : World)
    → find (is_service svc.id) w.services ≡ some svc
    → ((q : Scale) → outcome ≡ ok q → Answers req q)
    → (continue outcome (storing svc) w).0 ≡ ok tt
    → Stored svc req (continue outcome (storing svc) w).1.services
stored svc req (err why) w f b h = ground (arith, h)
stored svc req (ok q) w f b h =
    let (done, same) = finished svc.id _ (codes "could not update scaling") w h in
    record { scale = q; row = rw (sym same) (stored_row svc q w done f); answers = b q refl }

-- If the scale handler answers that all went well to a request that is let through to a service, then
-- the table holds the row of that service with only the replicas, the size, the minimum and the
-- maximum changed: it has at least one replica and a known size, and either autoscaling off, or at
-- least one replica as the minimum and a maximum that is not below it; the replicas are those asked
-- for, if that was at least one, and so is the maximum.
pub handle_scale-Stored :
    (r : Request) (param : Text) (req : Scale) (w : World) (svc : Service)
    → (require_service_access r param w).0 ≡ ok svc
    → (handle_scale r param (some req) w).0 ≡ ok tt
    → Stored svc req (handle_scale r param (some req) w).1.services
unfolding handle_scale decoded lift pure ◌>>=◌
handle_scale-Stored r param req w svc access h =
    let w' = (require_service_access r param w).1 in
    let here =
      ap (find (is_service svc.id)) (sym (((require_service_access-Same r param).at w).at.at))
      ∙ found r param w svc access in
    let after =
      ap
        (λ o.
          continue o
            (λ s. continue {E = Refusal} (ok req) (λ q. lift (checked_scale s q) >>= storing s)) w')
        access in
    rw (ap (λ x. x.1) after) (
      stored svc req (checked_scale svc req) w' here (checked_scale-Answers svc req)
        (sym (ap (λ x. x.0) after) ∙ h))
