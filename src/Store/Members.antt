-- ===== src/Store/Members.antt =====
-- internal/store/members.go, and the lookup of users by email.
use uran_api.Prelude.{
  ℕ, String, Text, Bool, ◌&&◌, Option, none, some, List, ◌∷◌, ◌==◌, nat_eq, string_eq, text_eq,
  if◌then◌else◌, find, select, update, discard, any, length, ltb,
}
use uran_api.Exec.{Result, ok, err}
use uran_api.Rbac.{owner}
use uran_api.Store.{Error, not_found, violation, Query, statement, query}
use uran_api.Store.Models.{User, Org, Membership}
use uran_api.Store.Deploys.{one_row}

-- The primary key of `org_members`.
abbrev pub is_member : ℕ → ℕ → Membership → Bool
is_member org_id user_id m = m.org_id == org_id && m.user_id == user_id

abbrev pub role_of : Option Membership → Result Error String
role_of none = err not_found
role_of (some m) = ok m.role

unfoldable pub role_in_org : ℕ → ℕ → Query String
role_in_org user_id org_id = query λ db. role_of (find (is_member org_id user_id) db.members)

abbrev pub set_role : String → Membership → Membership
set_role role m = record m { role = role }

-- `INSERT … ON CONFLICT (org_id, user_id) DO UPDATE`, under the two foreign keys.
unfoldable pub upsert_row : ℕ → ℕ → String → List Membership → List Membership
upsert_row org_id user_id role ms =
    if any (is_member org_id user_id) ms
    then update (is_member org_id user_id) (set_role role) ms
    else record { org_id = org_id; user_id = user_id; role = role } ∷ ms

unfoldable pub upsert_org_member : ℕ → ℕ → String → Query Unit
unfolding upsert_row
upsert_org_member org_id user_id role = statement λ db.
    if any (λ (o : Org). o.id == org_id) db.orgs && any (λ (u : User). u.id == user_id) db.users
    then ok (tt, record db { members = upsert_row org_id user_id role db.members })
    else err violation

unfoldable pub remove_org_member : ℕ → ℕ → Query Bool
remove_org_member org_id user_id = statement λ db. ok (
  ltb 0 (length (select (is_member org_id user_id) db.members)),
  record db { members = discard (is_member org_id user_id) db.members },
)

abbrev pub is_owner_of : ℕ → Membership → Bool
is_owner_of org_id m = m.org_id == org_id && m.role == owner

unfoldable pub count_org_owners : ℕ → Query ℕ
count_org_owners org_id = query λ db. ok (length (select (is_owner_of org_id) db.members))

-- The members of an org, each with the user's row.
unfoldable pub list_org_members : ℕ → Query (List Membership)
list_org_members org_id =
    query λ db. ok (select (λ (m : Membership). m.org_id == org_id) db.members)

unfoldable pub user_by_email : Text → Query User
user_by_email email = query λ db. one_row (find (λ (u : User). u.email == email) db.users)
