-- ===== src/Api/Settings/Rows.antt =====
-- What a request that is let through finds in the table of services, and what the end of the
-- settings handlers leaves of it.
use uran_api.Prelude.{
  ℕ, Text, refl, ap, ◌∙◌, some, find, find-holds, nat_beq_iff, List, ◌≡◌, arith, string_eq,
}
use uran_api.Exec.{Result, ok, err, continue, ◌>>=◌, or_raise, catch, try, guard, lift, pure, raise}
use uran_api.Exec.Respects.{IsPreorder, Respects, Respects-bind, Respects-or_raise, Respects-pure}
use uran_api.Store.{World, Db, Query, query}
use uran_api.Store.Deploys.{
  insert_deploy, create_imaged_deploy, latest_imaged_deploy, service_by_id,
}
use uran_api.Store.Members.{role_in_org}
use uran_api.Store.Services.{is_service}
use uran_api.Store.Through.{Through, Through-IsPreorder, Respects-statement, through_rules}
use uran_api.Api.Access.{
  Request, authorize_org, require_service_access, path_int, to_row, Refusal, refusal,
}
use uran_api.Go.Text.{codes}
use uran_api.Go.Decimal.{parse_int}
use uran_api.Api.Deploys.{apply_service_change, create_rollback_deploy}
use uran_api.Store.Models.{Service, Deploy, Build}
use uran_api.Api.Settings.{store_and_apply}

-- The services are left as they were.
pub record Same (a b : Db) : Type 0 where
  pub at : a.services ≡ b.services

Same-IsPreorder : IsPreorder Same
Same-IsPreorder = record {
  rfl = λ a. record { at = refl };
  trans = λ a b c p q. record { at = p.at ∙ q.at };
}

insert_deploy-Same :
    (d : Deploy) (b : Build) (db : Db) (a : Deploy) (db' : Db)
    → insert_deploy d b db ≡ ok (a, db')
    → Same db db'
unfolding insert_deploy
insert_deploy-Same d b db a db' e = record { at = ground (arith, e) }

create_imaged_deploy-Same :
    (id : ℕ) (image sha log : Text)
    → Respects (Through Same) (create_imaged_deploy id image sha log)
unfolding create_imaged_deploy
create_imaged_deploy-Same id image sha log =
    Respects-statement Same-IsPreorder _ (λ db a db' e. insert_deploy-Same _ _ db a db' e)

apply_service_change-Same : (id : ℕ) → Respects (Through Same) (apply_service_change id)
unfolding apply_service_change latest_imaged_deploy create_rollback_deploy
apply_service_change-Same id = search (through_rules, Same-IsPreorder, create_imaged_deploy-Same)

path_int-Same : (param message : Text) → Respects (Through Same) (path_int param message)
unfolding path_int
path_int-Same param message = search (through_rules, Same-IsPreorder)

service_by_id-Same : (id : ℕ) → Respects (Through Same) (service_by_id id)
unfolding service_by_id
service_by_id-Same id = search (through_rules, Same-IsPreorder)

authorize_org-Same : (r : Request) (org : ℕ) → Respects (Through Same) (authorize_org r org)
unfolding authorize_org role_in_org
authorize_org-Same r org = search (through_rules, Same-IsPreorder)

pub require_service_access-Same :
    (r : Request) (param : Text) → Respects (Through Same) (require_service_access r param)
unfolding require_service_access
require_service_access-Same r param =
    Respects-bind (Through-IsPreorder Same-IsPreorder) _ _ (path_int-Same param _) (λ id.
      Respects-bind (Through-IsPreorder Same-IsPreorder) _ _
        (Respects-or_raise (Through-IsPreorder Same-IsPreorder) _ _ (service_by_id-Same id))
        (λ s.
          Respects-bind (Through-IsPreorder Same-IsPreorder) _ _ (authorize_org-Same r s.1)
            (λ _. Respects-pure (Through-IsPreorder Same-IsPreorder) s.0)))

pub finished :
    (id : ℕ) (m : Query Unit) (message : Text) (w : World)
    → (store_and_apply id m message w).0 ≡ ok tt
    → ((m w).0 ≡ ok tt) × ((m w).1.services ≡ (store_and_apply id m message w).1.services)
unfolding store_and_apply ◌>>=◌ or_raise catch try pure raise
finished id m message w h = ground (arith, ((apply_service_change-Same id).at (m w).1).at.at)

own_id :
    (id : ℕ) (ss : List Service) (s : Service)
    → find (is_service id) ss ≡ some s
    → find (is_service s.id) ss ≡ some s
own_id id ss s e =
    ap (λ i. find (is_service i) ss) ((nat_beq_iff s.id id).0 (find-holds (is_service id) ss s e))
    ∙ e

found_at :
    (r : Request) (id : ℕ) (why : Refusal) (w : World) (svc : Service)
    → ((or_raise (service_by_id id) why >>= λ s. (authorize_org r s.1 >>= λ _. pure s.0)) w).0
      ≡ ok svc
    → find (is_service id) w.services ≡ some svc
unfolding authorize_org role_in_org service_by_id query ◌>>=◌ or_raise catch guard pure raise
found_at r id why w svc h = ground (arith, h)

-- The service that a request is let through to is the row of its id.
pub found :
    (r : Request) (param : Text) (w : World) (svc : Service)
    → (require_service_access r param w).0 ≡ ok svc
    → find (is_service svc.id) w.services ≡ some svc
unfolding require_service_access path_int ◌>>=◌ lift
found r param w svc h = go (to_row (codes "invalid service id") (parse_int param)) h
  where
    go :
        (o : Result Refusal ℕ)
        → (continue o
            (λ id. or_raise (service_by_id id) (refusal 404 (codes "service not found")) >>= λ s.
              (authorize_org r s.1 >>= λ _. pure s.0))
            w).0
          ≡ ok svc
        → find (is_service svc.id) w.services ≡ some svc
    go (ok id) e = own_id id w.services svc (found_at r id _ w svc e)
    go (err why) e = ground (arith, e)
