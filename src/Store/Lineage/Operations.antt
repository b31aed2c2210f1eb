-- ===== src/Store/Lineage/Operations.antt =====
-- The statements on the deploys and builds, one by one, respect the lineage of deploys.
use uran_api.Prelude.{
  ℕ, suc, ◌≤◌, ℤ, String, Text, ◌≡◌, refl, ◌⊎◌, inl, inr, Bool, true, false, Option, some, List, [],
  ◌∷◌, arith, ◌==◌, nat_eq, string_eq, if◌then◌else◌, nat_beq_iff, eq_iff, find, update, All,
  All-map, Bool-cases, ◌&&◌,
}
use uran_api.Exec.{ok, ◌>>=◌, guard}
use uran_api.Exec.Respects.{Respects}
use uran_api.Deploy.{status_queued, status_building, status_deploying, can_transition}
use uran_api.Deploy.Lifecycle.{◌⟶*◌, here, move, ⟶*-trans}
use uran_api.Store.{Db, World, statement, query}
use uran_api.Store.Models.{Deploy, Build}
use uran_api.Store.Through.{Through, Respects-statement}
use uran_api.Store.Deploys.{
  has_id, insert_deploy, new_deploy, create_buildable_deploy, create_imaged_deploy, with_status,
  update_deploy_status, claim_queued_deploy, set_deploy_image, start_build, finish_build,
  append_build_log,
}
use uran_api.Store.Lineage.{
  Falling, Origin, old, fresh, to_build, imaged, Lineage, Lineage-IsPreorder, same_origins,
}

-- Tables other than the deploys are not looked at.
pub Lineage-of_same :
    (s t : Db) → t.deploys ≡ s.deploys → t.next_deploy ≡ s.next_deploy → Lineage s t
Lineage-of_same s t e n = record {
  keyed = λ h. rw (e, n) h;
  grows = omega arith;
  traced = λ _. rw e (same_origins s);
}

update-Falling :
    (q : Deploy → Bool) (f : Deploy → Deploy) (n : ℕ) (ds : List Deploy)
    → ((d : Deploy) → (f d).id ≡ d.id)
    → Falling n ds
    → Falling n (update q f ds)
unfolding update
update-Falling q f n [] same h = tt
update-Falling q f n (d ∷ ds) same h = ground (arith, same d, update-Falling q f d.id ds same h.1)

-- An update that moves each row that it selects by allowed moves, and changes no key.
pub Lineage-update :
    (s t : Db) (q : Deploy → Bool) (f : Deploy → Deploy)
    → t.deploys ≡ update q f s.deploys
    → t.next_deploy ≡ s.next_deploy
    → ((d : Deploy) → (f d).id ≡ d.id)
    → ((d : Deploy) → (f d).service_id ≡ d.service_id)
    → ((d : Deploy) → (f d).kind ≡ d.kind)
    → (Falling s.next_deploy s.deploys → All (λ d. q d ≡ true → d.status ⟶* (f d).status) s.deploys)
    → Lineage s t
unfolding update
Lineage-update s t q f e n i v k moves = record {
  keyed = λ h. rw (e, n) (update-Falling q f s.next_deploy s.deploys i h);
  grows = omega arith;
  traced = λ h. rw e (go s.deploys (same_origins s) (moves h));
}
  where
    extend : (d : Deploy) → d.status ⟶* (f d).status → Origin s d → Origin s (f d)
    extend d p (old b m ib vb kb q') = old b m (cc (i d)) (cc (v d)) (cc (k d)) (⟶*-trans q' p)
    extend d p (fresh le b birth q') = fresh (omega (arith, i d)) b birth (⟶*-trans q' p)

    branch :
        (d : Deploy) (b : Bool)
        → q d ≡ b
        → Origin s d
        → (q d ≡ true → d.status ⟶* (f d).status)
        → Origin s (if b then f d else d)
    branch d true e o p = extend d (p e) o
    branch d false e o p = o

    go :
        (ds : List Deploy)
        → All (Origin s) ds
        → All (λ d. q d ≡ true → d.status ⟶* (f d).status) ds
        → All (Origin s) (update q f ds)
    go [] a b = tt
    go (d ∷ ds) a b = (branch d (q d) refl a.0 b.0, go ds a.1 b.1)

-- A row of a keyed table is the only one of its id.
find_unique :
    (id n : ℕ) (cur : Deploy) (ds : List Deploy)
    → Falling n ds
    → find (has_id id) ds ≡ some cur
    → All (λ d. has_id id d ≡ true → d ≡ cur) ds
unfolding find
find_unique id n cur [] h e = tt
find_unique id n cur (d ∷ ds) h e = elim (Bool-cases (has_id id d)) [
  | inl hit ↦ (λ _. ground arith, above d.id ds h.1 (omega (arith, (nat_beq_iff d.id id).0 hit)))
  | inr miss ↦ (λ hit. cc, find_unique id d.id cur ds h.1 (ground arith))
]
  where
    above :
        (m : ℕ) (es : List Deploy)
        → Falling m es
        → m ≤ id
        → All (λ x. has_id id x ≡ true → x ≡ cur) es
    above m [] f le = tt
    above m (x ∷ es) f le = (λ hit. absurd (ground arith), above x.id es f.1 (omega arith))

pub insert_deploy-Lineage :
    (d : Deploy) (b : Build) (db : Db) (a : Deploy) (db' : Db)
    → d.id ≡ db.next_deploy
    → (d.status ≡ status_queued) ⊎ (d.status ≡ status_deploying)
    → insert_deploy d b db ≡ ok (a, db')
    → Lineage db db'
unfolding insert_deploy
insert_deploy-Lineage d b db a db' i born e = record {
  keyed = λ h. rw (rows, next) (omega arith, rw i h);
  grows = omega (arith, next);
  traced = λ h. rw rows (origin born, same_origins db);
}
  where
    rows : db'.deploys ≡ d ∷ db.deploys
    rows = ground arith

    next : db'.next_deploy ≡ suc db.next_deploy
    next = ground arith

    origin : (d.status ≡ status_queued) ⊎ (d.status ≡ status_deploying) → Origin db d
    origin (inl q) = fresh (omega arith) d.status (to_build q) here
    origin (inr q) = fresh (omega arith) d.status (imaged q) here

-- What a guarded status update does to the tables: nothing, or one allowed move of the row of that
-- id.
pub data Updated (id : ℕ) (to : String) (s t : Db) : Type 0 where
  unchanged : t ≡ s → Updated id to s t
  moved :
      (d : Deploy)
      → find (has_id id) s.deploys ≡ some d
      → can_transition d.status to ≡ true
      → t ≡ record s { deploys = update (has_id id) (with_status to s.now) s.deploys }
      → Updated id to s t

update_deploy_status_cases :
    (id : ℕ) (to : String) (w : World)
    → ((update_deploy_status id to w).1.db ≡ w.db)
      ⊎ ((d : Deploy) × (find (has_id id) w.deploys ≡ some d)
          × (can_transition d.status to ≡ true)
          × ((update_deploy_status id to w).1.db
              ≡ record w.db { deploys = update (has_id id) (with_status to w.now) w.deploys }))
unfolding update_deploy_status ◌>>=◌ guard statement query
update_deploy_status_cases id to w = ground arith

pub update_deploy_status-Updated :
    (id : ℕ) (to : String) (w : World) → Updated id to w.db (update_deploy_status id to w).1.db
update_deploy_status-Updated id to w = elim (update_deploy_status_cases id to w) [
  | inl e ↦ unchanged e
  | inr (d, f, c, e) ↦ moved d f c e
]

pub create_buildable_deploy-Lineage :
    (service_id : ℕ) (commit_sha : Text) (kind : String) (pr_number : Option ℤ)
    → Respects (Through Lineage) (create_buildable_deploy service_id commit_sha kind pr_number)
unfolding create_buildable_deploy new_deploy
create_buildable_deploy-Lineage service_id commit_sha kind pr_number =
    Respects-statement Lineage-IsPreorder _
      λ db a db' e. insert_deploy-Lineage _ _ db a db' refl (inl refl) e

pub create_imaged_deploy-Lineage :
    (service_id : ℕ) (image commit_sha build_log : Text)
    → Respects (Through Lineage) (create_imaged_deploy service_id image commit_sha build_log)
unfolding create_imaged_deploy new_deploy
create_imaged_deploy-Lineage service_id image commit_sha build_log =
    Respects-statement Lineage-IsPreorder _
      λ db a db' e. insert_deploy-Lineage _ _ db a db' refl (inr refl) e

Updated-Lineage : (id : ℕ) (to : String) (s t : Db) → Updated id to s t → Lineage s t
Updated-Lineage id to s t (unchanged e) = Lineage-of_same s t (ground arith) (ground arith)
Updated-Lineage id to s t (moved d f c e) =
    Lineage-update s t (has_id id) (with_status to s.now) (ground arith) (ground arith) (λ d. refl)
      (λ d. refl) (λ d. refl)
      λ h. All-map _ _ s.deploys (λ x u hit. rw (u hit) (move here c)) (find_unique id _ d _ h f)

pub update_deploy_status-Lineage :
    (id : ℕ) (to : String) → Respects (Through Lineage) (update_deploy_status id to)
update_deploy_status-Lineage id to = record {
  at = λ w. record { at = Updated-Lineage id to w.db _ (update_deploy_status-Updated id to w) };
}

All-always {ℓ κ} : {A : Type ℓ} (P : A → Type κ) (xs : List A) → ((x : A) → P x) → All P xs
All-always P [] f = tt
All-always P (x ∷ xs) f = (f x, All-always P xs f)

pub claim_queued_deploy-Lineage : (id : ℕ) → Respects (Through Lineage) (claim_queued_deploy id)
unfolding claim_queued_deploy can_transition
claim_queued_deploy-Lineage id = Respects-statement Lineage-IsPreorder _ λ db a db' e.
    Lineage-update db db' (λ d. has_id id d && d.status == status_queued)
      (with_status status_building db.now) (ground arith) (ground arith) (λ d. refl) (λ d. refl)
      (λ d. refl) λ _. All-always _ db.deploys λ d hit. move here (queued d hit)
  where
    queued :
        (d : Deploy)
        → (has_id id d && d.status == status_queued) ≡ true
        → can_transition d.status status_building ≡ true
    queued d hit = rw ((eq_iff d.status status_queued).0 (ground arith)) refl

pub set_deploy_image-Lineage :
    (id : ℕ) (image : Text) → Respects (Through Lineage) (set_deploy_image id image)
unfolding set_deploy_image
set_deploy_image-Lineage id image = Respects-statement Lineage-IsPreorder _ λ db a db' e.
    Lineage-update db db' (has_id id) (λ d. record d { image = image; updated_at = db.now })
      (ground arith) (ground arith) (λ d. refl) (λ d. refl) (λ d. refl)
      λ _. All-always _ db.deploys λ d hit. here

pub start_build-Lineage :
    (id : ℕ) (status : String) → Respects (Through Lineage) (start_build id status)
unfolding start_build
start_build-Lineage id status =
    Respects-statement Lineage-IsPreorder _
      λ db a db' e. Lineage-of_same db db' (ground arith) (ground arith)

pub finish_build-Lineage :
    (id : ℕ) (status : String) → Respects (Through Lineage) (finish_build id status)
unfolding finish_build
finish_build-Lineage id status =
    Respects-statement Lineage-IsPreorder _
      λ db a db' e. Lineage-of_same db db' (ground arith) (ground arith)

pub append_build_log-Lineage :
    (id : ℕ) (chunk : Text) → Respects (Through Lineage) (append_build_log id chunk)
unfolding append_build_log
append_build_log-Lineage id chunk =
    Respects-statement Lineage-IsPreorder _
      λ db a db' e. Lineage-of_same db db' (ground arith) (ground arith)

-- A guarded update of a status, run with nothing between its read and its write, leaves the tables
-- as they are or moves the row of that id along one edge of the state machine and sets its time.
pub update_deploy_status-guarded :
    (id : ℕ) (to : String) (w : World)
    → ((update_deploy_status id to w).1.db ≡ w.db)
      ⊎ ((d : Deploy) × (find (has_id id) w.deploys ≡ some d)
          × (can_transition d.status to ≡ true)
          × ((update_deploy_status id to w).1.db
              ≡ record w.db { deploys = update (has_id id) (with_status to w.now) w.deploys }))
update_deploy_status-guarded id to w = update_deploy_status_cases id to w
