-- ===== src/Api/Members/LastOwner.antt =====
-- An org that has an owner keeps one, as long as no request fails.
use uran_api.Prelude.{
  ℕ, ◌≤◌, String, Text, ◌≡◌, inl, inr, Option, none, some, arith, nat_eq, string_eq,
}
use uran_api.Exec.{Result}
use uran_api.Exec.Respects.{Respects, Kept, Kept-IsPreorder, respects_rules}
use uran_api.Go.Unicode.{Unicode}
use uran_api.Store.{World, Db, Healthy, query, Error}
use uran_api.Store.Members.{is_member, role_in_org, user_by_email}
use uran_api.Api.Access.{Request, path_int, require_org_role, decoded}
use uran_api.Api.Members.{
  remove_role, handle_remove_member, apply_role, handle_set_member_role, handle_add_member,
  AddMember,
}
use uran_api.Api.Members.Owners.{UniqueMembers, owners, UniqueMembers-discard, UniqueMembers-upsert}
use uran_api.Api.Members.Guard.{
  remove_role_cases, apply_role_cases, owner_after_discard, owner_after_upsert,
}

pub record Owned (o : ℕ) (w : World) : Type 0 where
  pub healthy : Healthy w
  pub unique : UniqueMembers w.members
  pub owned : 1 ≤ owners o w.members

-- A query changes neither the members nor what fails.
query-same :
    {A : Type 0} (f : Db → Result Error A) (w : World)
    → ((query f w).1.down ≡ w.down) × ((query f w).1.members ≡ w.members)
unfolding query
query-same f w = ground arith

Owned-same :
    (o : ℕ) (s t : World) → (t.down ≡ s.down) × (t.members ≡ s.members) → Owned o s → Owned o t
Owned-same o s t e h = record {
  healthy = λ n. rw e.0 (h.healthy n);
  unique = rw e.1 h.unique;
  owned = rw e.1 h.owned;
}

query-Owned : {A : Type 0} (o : ℕ) (f : Db → Result Error A) → Respects (Kept (Owned o)) (query f)
query-Owned o f = record { at = λ w. Owned-same o w (query f w).1 (query-same f w) }

role_in_org-Owned : (o user org : ℕ) → Respects (Kept (Owned o)) (role_in_org user org)
unfolding role_in_org
role_in_org-Owned o user org = query-Owned o _

user_by_email-Owned : (o : ℕ) (email : Text) → Respects (Kept (Owned o)) (user_by_email email)
unfolding user_by_email
user_by_email-Owned o email = query-Owned o _

decoded-Owned :
    {A : Type 0} (o : ℕ) (body : Option A) (message : Text)
    → Respects (Kept (Owned o)) (decoded body message)
unfolding decoded
decoded-Owned o none message = search (respects_rules, Kept-IsPreorder)
decoded-Owned o (some a) message = search (respects_rules, Kept-IsPreorder)

remove_role-Owned : (o org user : ℕ) → Respects (Kept (Owned o)) (remove_role org user)
remove_role-Owned o org user = record { at = go }
  where
    go : (w : World) → Owned o w → Owned o (remove_role org user w).1
    go w h =
        let (down, outcome) = remove_role_cases org user w h.healthy in
        elim outcome [
          | inl same ↦ Owned-same o w (remove_role org user w).1 (down, same) h
          | inr (gone, enough) ↦ record {
            healthy = λ n. rw down (h.healthy n);
            unique = rw gone (UniqueMembers-discard (is_member org user) w.members h.unique);
            owned = rw gone (owner_after_discard o org user w.members enough h.owned h.unique);
          }
        ]

apply_role-Owned :
    (o org user : ℕ) (role caller : String)
    → Respects (Kept (Owned o)) (apply_role org user role caller)
apply_role-Owned o org user role caller = record { at = go }
  where
    go : (w : World) → Owned o w → Owned o (apply_role org user role caller w).1
    go w h =
        let (down, outcome) = apply_role_cases org user role caller w h.healthy in
        elim outcome [
          | inl same ↦ Owned-same o w (apply_role org user role caller w).1 (down, same) h
          | inr (stored, enough) ↦ record {
            healthy = λ n. rw down (h.healthy n);
            unique = rw stored (UniqueMembers-upsert org user role w.members h.unique);
            owned =
                rw stored (owner_after_upsert o org user role w.members enough h.owned h.unique);
          }
        ]

ruleset owned_rules = (
  respects_rules, Kept-IsPreorder, role_in_org-Owned, user_by_email-Owned, decoded-Owned,
  remove_role-Owned, apply_role-Owned,
)

require_org_role-Owned :
    (o : ℕ) (r : Request) (org : ℕ) (min : String)
    → Respects (Kept (Owned o)) (require_org_role r org min)
unfolding require_org_role
require_org_role-Owned o r org min = search owned_rules depth 8

path_int-Owned : (o : ℕ) (param message : Text) → Respects (Kept (Owned o)) (path_int param message)
unfolding path_int
path_int-Owned o param message = search owned_rules

handle_remove_member-Kept :
    (o : ℕ) (r : Request) (org_param user_param : Text)
    → Respects (Kept (Owned o)) (handle_remove_member r org_param user_param)
unfolding handle_remove_member
handle_remove_member-Kept o r org_param user_param =
    search (owned_rules, require_org_role-Owned, path_int-Owned) depth 10

handle_set_member_role-Kept :
    (o : ℕ) (r : Request) (org_param user_param : Text) (body : Option String)
    → Respects (Kept (Owned o)) (handle_set_member_role r org_param user_param body)
unfolding handle_set_member_role
handle_set_member_role-Kept o r org_param user_param body =
    search (owned_rules, require_org_role-Owned, path_int-Owned) depth 10

handle_add_member-Kept :
    (u : Unicode) (o : ℕ) (r : Request) (org_param : Text) (body : Option AddMember)
    → Respects (Kept (Owned o)) (handle_add_member u r org_param body)
unfolding handle_add_member
handle_add_member-Kept u o r org_param body =
    search (owned_rules, require_org_role-Owned, path_int-Owned) depth 10

-- Removing a member takes no org's last owner away: an org that has an owner, has one after the
-- request, if no statement fails and no user is twice in one org; both still hold then.
pub handle_remove_member-Owned :
    (o : ℕ) (r : Request) (org_param user_param : Text) (w : World)
    → Owned o w
    → Owned o (handle_remove_member r org_param user_param w).1
handle_remove_member-Owned o r org_param user_param w h =
    (handle_remove_member-Kept o r org_param user_param).at w h

-- Setting a role takes no org's last owner away: an org that has an owner, has one after the
-- request, if no statement fails and no user is twice in one org; both still hold then.
pub handle_set_member_role-Owned :
    (o : ℕ) (r : Request) (org_param user_param : Text) (body : Option String) (w : World)
    → Owned o w
    → Owned o (handle_set_member_role r org_param user_param body w).1
handle_set_member_role-Owned o r org_param user_param body w h =
    (handle_set_member_role-Kept o r org_param user_param body).at w h

-- Adding a member takes no org's last owner away: an org that has an owner, has one after the
-- request, if no statement fails and no user is twice in one org; both still hold then.
pub handle_add_member-Owned :
    (u : Unicode) (o : ℕ) (r : Request) (org_param : Text) (body : Option AddMember) (w : World)
    → Owned o w
    → Owned o (handle_add_member u r org_param body w).1
handle_add_member-Owned u o r org_param body w h =
    (handle_add_member-Kept u o r org_param body).at w h
