-- ===== src/Api/Members/Guard.antt =====
-- What the member handlers do to the rows, and what their guard leaves to an org.
use mathlib.Core.Option
use mathlib.Core.Path.{subst}
use uran_api.Prelude.{
  ℕ, suc, ◌+◌, ◌≤◌, String, ◌≡◌, ◌⊎◌, inl, inr, true, false, none, some, List, arith, ◌==◌, nat_eq,
  string_eq, nat_beq_iff, find, select, update, discard, any, find-holds, Bool-cases, Option-cases,
}
use uran_api.Exec.{ok, pure, raise, ◌>>=◌, catch, try, or_raise, guard}
use uran_api.Rbac.{owner}
use uran_api.Store.{World, Healthy, statement, query}
use uran_api.Store.Models.{Membership}
use uran_api.Store.Members.{
  is_member, set_role, upsert_row, is_owner_of, role_in_org, upsert_org_member, remove_org_member,
  count_org_owners, role_of,
}
use uran_api.Api.Members.{
  remove_role, guard_last_owner, keep_an_owner, enough_owners, is_demotion, apply_role,
}
use uran_api.Api.Members.Owners.{UniqueMembers, owners, counts, owners-discard, owners-update}

pub remove_role_cases :
    (org user : ℕ) (w : World)
    → Healthy w
    → ((remove_role org user w).1.down ≡ w.down)
      × (((remove_role org user w).1.members ≡ w.members)
          ⊎ (((remove_role org user w).1.members ≡ discard (is_member org user) w.members)
              × ((is_demotion (role_of (find (is_member org user) w.members)) "" ≡ true)
                  → enough_owners (ok (owners org w.members)) ≡ true)))
unfolding remove_role guard_last_owner keep_an_owner role_in_org count_org_owners remove_org_member
    statement query ◌>>=◌ try or_raise catch guard pure raise
remove_role_cases org user w h = ground (arith, h w.sent, h (suc w.sent), h (suc (suc w.sent)))

-- The guard lets a row of an owner go or change only if the org has two.
guarded :
    (o org user : ℕ) (role : String) (ms : List Membership) (m : Membership) (k extra : ℕ)
    → find (is_member org user) ms ≡ some m
    → (is_demotion (role_of (find (is_member org user) ms)) role ≡ true
        → enough_owners (ok (owners org ms)) ≡ true)
    → 1 ≤ owners o ms
    → k + counts o (some m) ≡ owners o ms + extra
    → ((role == owner) ≡ true → m.org_id ≡ o → 1 ≤ extra)
    → 1 ≤ k
unfolding is_demotion enough_owners
guarded o org user role ms m k extra f enough have sum more = elim (Bool-cases (is_owner_of o m)) [
  | inr other ↦ ground (arith, other)
  | inl hit ↦ go hit (found_org hit) (Bool-cases (role == owner))
]
  where
    found_org : is_owner_of o m ≡ true → org ≡ o
    found_org hit = cc (
      (nat_beq_iff m.org_id org).0 (ground (arith, find-holds (is_member org user) ms m f)),
      (nat_beq_iff m.org_id o).0 (ground arith),
    )

    demoted :
        is_owner_of o m ≡ true
        → (role == owner) ≡ false
        → is_demotion (role_of (find (is_member org user) ms)) role ≡ true
    demoted hit other = rw f (ground arith)

    go :
        is_owner_of o m ≡ true
        → org ≡ o
        → ((role == owner) ≡ true) ⊎ ((role == owner) ≡ false)
        → 1 ≤ k
    go hit same (inl grant) = ground (arith, more grant ((nat_beq_iff m.org_id o).0 (ground arith)))
    go hit same (inr other) =
        two (subst (λ x. enough_owners (ok (owners x ms)) ≡ true) same (enough (demoted hit other)))
      where
        two : enough_owners (ok (owners o ms)) ≡ true → 1 ≤ k
        two e = ground arith

pub owner_after_discard :
    (o org user : ℕ) (ms : List Membership)
    → (is_demotion (role_of (find (is_member org user) ms)) "" ≡ true
        → enough_owners (ok (owners org ms)) ≡ true)
    → 1 ≤ owners o ms
    → UniqueMembers ms
    → 1 ≤ owners o (discard (is_member org user) ms)
owner_after_discard o org user ms enough have u =
    elim (Option-cases (find (is_member org user) ms)) [
      | inl e ↦ ground (arith, owners-discard o org user ms u)
      | inr (m, e) ↦
          guarded o org user "" ms m _ 0 e enough have
            (ground (arith, owners-discard o org user ms u)) (λ c q. absurd (ground (arith, c)))
    ]

pub owner_after_upsert :
    (o org user : ℕ) (role : String) (ms : List Membership)
    → (is_demotion (role_of (find (is_member org user) ms)) role ≡ true
        → enough_owners (ok (owners org ms)) ≡ true)
    → 1 ≤ owners o ms
    → UniqueMembers ms
    → 1 ≤ owners o (upsert_row org user role ms)
unfolding upsert_row select
owner_after_upsert o org user role ms enough have u =
    elim (Bool-cases (any (is_member org user) ms)) [
      | inr e ↦ rw e (ground arith)
      | inl e ↦ rw e (changed (Option-cases (find (is_member org user) ms)))
    ]
  where
    sum :
        owners o (update (is_member org user) (set_role role) ms)
          + counts o (find (is_member org user) ms)
        ≡ owners o ms + counts o (Option.map (set_role role) (find (is_member org user) ms))
    sum = owners-update o org user role ms u

    changed :
        (find (is_member org user) ms ≡ none)
          ⊎ ((m : Membership) × (find (is_member org user) ms ≡ some m))
        → 1 ≤ owners o (update (is_member org user) (set_role role) ms)
    changed (inl f) = ground (arith, sum)
    changed (inr (m, f)) =
        guarded o org user role ms m _ (counts o (some (set_role role m))) f enough have
          (ground (arith, sum)) λ grant at. ground (arith, (nat_beq_iff m.org_id o).1 at)

pub apply_role_cases :
    (org user : ℕ) (role caller : String) (w : World)
    → Healthy w
    → ((apply_role org user role caller w).1.down ≡ w.down)
      × (((apply_role org user role caller w).1.members ≡ w.members)
          ⊎ (((apply_role org user role caller w).1.members ≡ upsert_row org user role w.members)
              × ((is_demotion (role_of (find (is_member org user) w.members)) role ≡ true)
                  → enough_owners (ok (owners org w.members)) ≡ true)))
unfolding apply_role guard_last_owner keep_an_owner role_in_org count_org_owners upsert_org_member
    statement query ◌>>=◌ try or_raise catch guard pure raise
apply_role_cases org user role caller w h =
    ground (arith, h w.sent, h (suc w.sent), h (suc (suc w.sent)), h (suc (suc (suc w.sent))))
