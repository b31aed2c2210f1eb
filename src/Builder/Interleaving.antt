-- ===== src/Builder/Interleaving.antt =====
-- The statements of the builders, the controller and the API on deploys, in any interleaving.
use uran_api.Prelude.{
  ℕ, suc, ◌<◌, ℤ, String, Text, ◌≡◌, ◌≢◌, refl, ◌⊎◌, inl, inr, Bool, true, false, Option, none, [],
  ◌∷◌, arith, ◌==◌, nat_eq, string_eq, Bool-cases, update, All, All-update, All-discard,
}
use uran_api.Exec.{ok}
use uran_api.Deploy.{status_queued, status_building, status_deploying, kind_production}
use uran_api.Store.{World, statement}
use uran_api.Store.Models.{Deploy}
use uran_api.Store.Deploys.{
  has_id, with_status, claim_queued_deploy, set_status, set_deploy_image, create_buildable_deploy,
  create_imaged_deploy, insert_deploy, new_deploy,
}
use uran_api.Store.Tenants.{delete_project, drop_projects}
use uran_api.Store.Lineage.{Falling}
use uran_api.Builder.Claims.{claimable, claimed, not_claimed, of_claimable}

-- One statement. `writes` is the second half of `update_deploy_status`, which the program never asks
-- for the queued status; `others` are statements and requests that leave the deploys alone.
pub data Step (w : World) : World → Type 0 where
  claims : (id : ℕ) → Step w (claim_queued_deploy id w).1
  writes : (id : ℕ) (to : String) → (to == status_queued) ≡ false → Step w (set_status id to w).1
  stores_image : (id : ℕ) (image : Text) → Step w (set_deploy_image id image w).1
  enqueues :
      (service_id : ℕ) (sha : Text) (kind : String) (pr : Option ℤ)
      → Step w (create_buildable_deploy service_id sha kind pr w).1
  redeploys :
      (service_id : ℕ) (image sha log : Text)
      → Step w (create_imaged_deploy service_id image sha log w).1
  drops_project : (id : ℕ) → Step w (delete_project id w).1
  others : (w' : World) → w'.deploys ≡ w.deploys → w'.next_deploy ≡ w.next_deploy → Step w w'

infix 40 ◌⟶⟶◌
pub data ◌⟶⟶◌ (w : World) : World → Type 0 where
  stop : w ⟶⟶ w
  next : {u v : World} → w ⟶⟶ u → Step u v → w ⟶⟶ v

-- The deploy of that id was created, and no row of it can be claimed.
record Gone (id : ℕ) (w : World) : Type 0 where
  created : id < w.next_deploy
  taken : All (λ d. claimable id d ≡ false) w.deploys

not_queued : (id : ℕ) (d : Deploy) → (d.status == status_queued) ≡ false → claimable id d ≡ false
not_queued id d h = ground (arith, h)

not_this : (id : ℕ) (d : Deploy) → d.id ≢ id → claimable id d ≡ false
not_this id d h = elim (Bool-cases (claimable id d)) [
  | inl e ↦ absurd (h (of_claimable id d e).0)
  | inr e ↦ e
]

update-Gone :
    (id : ℕ) (w w' : World) (q : Deploy → Bool) (f : Deploy → Deploy)
    → (w'.deploys ≡ update q f w.deploys) ⊎ (w'.deploys ≡ w.deploys)
    → w'.next_deploy ≡ w.next_deploy
    → ((d : Deploy) → claimable id d ≡ false → claimable id (f d) ≡ false)
    → Gone id w
    → Gone id w'
update-Gone id w w' q f (inl e) n k g = record {
  created = rw n g.created;
  taken = rw e (All-update _ q f w.deploys (λ d hit. k d) g.taken);
}
update-Gone id w w' q f (inr e) n k g = record { created = rw n g.created; taken = rw e g.taken }

insert-Gone :
    (id : ℕ) (w w' : World) (d : Deploy)
    → ((w'.deploys ≡ d ∷ w.deploys) × (w'.next_deploy ≡ suc w.next_deploy))
      ⊎ ((w'.deploys ≡ w.deploys) × (w'.next_deploy ≡ w.next_deploy))
    → d.id ≡ w.next_deploy
    → Gone id w
    → Gone id w'
insert-Gone id w w' d (inl (e, n)) i g = record {
  created = omega (arith, n, g.created);
  taken = rw e (not_this id d (λ same. omega (arith, same, i, g.created)), g.taken);
}
insert-Gone id w w' d (inr (e, n)) i g = record { created = rw n g.created; taken = rw e g.taken }

claim-cases :
    (id : ℕ) (w : World)
    → ((claim_queued_deploy id w).1.next_deploy ≡ w.next_deploy)
      × (((claim_queued_deploy id w).1.deploys
            ≡ update (claimable id) (with_status status_building w.now) w.deploys)
          ⊎ ((claim_queued_deploy id w).1.deploys ≡ w.deploys))
unfolding claim_queued_deploy statement
claim-cases id w = ground arith

set_status-cases :
    (id : ℕ) (to : String) (w : World)
    → ((set_status id to w).1.next_deploy ≡ w.next_deploy)
      × (((set_status id to w).1.deploys ≡ update (has_id id) (with_status to w.now) w.deploys)
          ⊎ ((set_status id to w).1.deploys ≡ w.deploys))
unfolding set_status statement
set_status-cases id to w = ground arith

create_buildable_deploy-cases :
    (service_id : ℕ) (sha : Text) (kind : String) (pr : Option ℤ) (w : World)
    → (((create_buildable_deploy service_id sha kind pr w).1.deploys
          ≡ new_deploy w.db service_id status_queued sha [] kind pr ∷ w.deploys)
        × ((create_buildable_deploy service_id sha kind pr w).1.next_deploy ≡ suc w.next_deploy))
      ⊎ (((create_buildable_deploy service_id sha kind pr w).1.deploys ≡ w.deploys)
          × ((create_buildable_deploy service_id sha kind pr w).1.next_deploy ≡ w.next_deploy))
unfolding create_buildable_deploy insert_deploy new_deploy statement
create_buildable_deploy-cases service_id sha kind pr w = ground arith

create_imaged_deploy-cases :
    (service_id : ℕ) (image sha log : Text) (w : World)
    → (((create_imaged_deploy service_id image sha log w).1.deploys
          ≡ new_deploy w.db service_id status_deploying sha image kind_production none ∷ w.deploys)
        × ((create_imaged_deploy service_id image sha log w).1.next_deploy ≡ suc w.next_deploy))
      ⊎ (((create_imaged_deploy service_id image sha log w).1.deploys ≡ w.deploys)
          × ((create_imaged_deploy service_id image sha log w).1.next_deploy ≡ w.next_deploy))
unfolding create_imaged_deploy insert_deploy new_deploy statement
create_imaged_deploy-cases service_id image sha log w = ground arith

set_deploy_image-cases :
    (id : ℕ) (image : Text) (w : World)
    → ((set_deploy_image id image w).1.next_deploy ≡ w.next_deploy)
      × (((set_deploy_image id image w).1.deploys
            ≡ update (has_id id) (λ d. record d { image = image; updated_at = w.now }) w.deploys)
          ⊎ ((set_deploy_image id image w).1.deploys ≡ w.deploys))
unfolding set_deploy_image statement
set_deploy_image-cases id image w = ground arith

delete_project-Gone :
    (id project : ℕ) (w : World) → Gone id w → Gone id (delete_project project w).1
unfolding delete_project drop_projects statement
delete_project-Gone id project w g = record {
  created = ground (arith, g.created);
  taken = go (w.down w.sent) refl;
}
  where
    go :
        (b : Bool)
        → w.down w.sent ≡ b
        → All (λ d. claimable id d ≡ false) (delete_project project w).1.deploys
    go true e = rw (e, delete_project, statement) g.taken
    go false e = rw (e, delete_project, statement) (All-discard _ _ w.deploys g.taken)

Step-Gone : (id : ℕ) (w w' : World) → Step w w' → Gone id w → Gone id w'
unfolding new_deploy
Step-Gone id w w' (claims i) g =
    let (n, e) = claim-cases i w in
    update-Gone id w _ (claimable i) (with_status status_building w.now) e n (λ d h. ground arith) g
Step-Gone id w w' (writes i to h) g =
    let (n, e) = set_status-cases i to w in
    update-Gone id w _ (has_id i) (with_status to w.now) e n
      (λ d k. not_queued id (with_status to w.now d) h) g
Step-Gone id w w' (stores_image i image) g =
    let (n, e) = set_deploy_image-cases i image w in
    update-Gone id w _ (has_id i) (λ d. record d { image = image; updated_at = w.now }) e n
      (λ d h. h) g
Step-Gone id w w' (enqueues service_id sha kind pr) g =
    insert-Gone id w _ _ (create_buildable_deploy-cases service_id sha kind pr w) refl g
Step-Gone id w w' (redeploys service_id image sha log) g =
    insert-Gone id w _ _ (create_imaged_deploy-cases service_id image sha log w) refl g
Step-Gone id w w' (drops_project i) g = delete_project-Gone id i w g
Step-Gone id w w' (others v e n) g = record { created = rw n g.created; taken = rw e g.taken }

Steps-Gone : (id : ℕ) {w w' : World} → w ⟶⟶ w' → Gone id w → Gone id w'
Steps-Gone id stop g = g
Steps-Gone id (next {u} {v} p s) g = Step-Gone id u v s (Steps-Gone id p g)

-- While ids fall along the table, a deploy that a worker has claimed is not claimed again, by any
-- worker, after any interleaving of the program's statements on deploys.
pub claims_at_most_once :
    (id : ℕ) (w w' : World)
    → Falling w.next_deploy w.deploys
    → (claim_queued_deploy id w).0 ≡ ok true
    → (claim_queued_deploy id w).1 ⟶⟶ w'
    → (claim_queued_deploy id w').0 ≢ ok true
claims_at_most_once id w w' f h p =
    let (lt, same, taken) = claimed id w f h in
    not_claimed id w' (Steps-Gone id p (record { created = rw same lt; taken = taken })).taken
