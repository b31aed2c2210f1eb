-- ===== src/Api/Access/Roles.antt =====
-- Whom the checks let through.
use text.Mathlib.TextEquality.{eq_iff}
use uran_api.Prelude.{
  ℕ, ◌≤◌, String, ◌≡◌, ◌⊎◌, inl, inr, true, false, Bool-cases, ◌==◌, ◌&&◌, arith, find, string_eq,
  ltb, leb,
}
use uran_api.Exec.{ok, ◌>>=◌, or_raise, catch, guard, pure, raise}
use uran_api.Rbac.{member, admin, owner, rank, at_least, can_write}
use uran_api.Store.{World, query}
use uran_api.Store.Members.{is_member, role_in_org, role_of}
use uran_api.Api.Access.{Request, authorize_org, require_org_role, is_mutation}

-- A method that changes nothing.
abbrev pub IsRead : String → Type 0
IsRead method = (method ≡ "GET") ⊎ ((method ≡ "HEAD") ⊎ (method ≡ "OPTIONS"))

-- A role that may change something.
abbrev pub IsWriter : String → Type 0
IsWriter role = (role ≡ "member") ⊎ ((role ≡ "admin") ⊎ (role ≡ "owner"))

is_mutation-IsRead : (method : String) → is_mutation method ≡ false → IsRead method
unfolding is_mutation
is_mutation-IsRead method h = elim (Bool-cases (method == "GET")) [
  | inl e ↦ inl ((eq_iff method "GET").0 e)
  | inr e ↦ elim (Bool-cases (method == "HEAD")) [
    | inl d ↦ inr (inl ((eq_iff method "HEAD").0 d))
    | inr d ↦ inr (inr ((eq_iff method "OPTIONS").0 (ground (arith, h, e, d))))
  ]
]

pub not_read : (method : String) → (IsRead method → ⊥) → is_mutation method ≡ true
not_read method h = elim (Bool-cases (is_mutation method)) [
  | inl e ↦ e
  | inr e ↦ absurd (h (is_mutation-IsRead method e))
]

can_write-IsWriter : (role : String) → can_write role ≡ true → IsWriter role
unfolding can_write at_least rank
can_write-IsWriter role h = elim (Bool-cases (role == member)) [
  | inl e ↦ inl ((eq_iff role member).0 e)
  | inr e ↦ elim (Bool-cases (role == admin)) [
    | inl d ↦ inr (inl ((eq_iff role admin).0 d))
    | inr d ↦ inr (inr ((eq_iff role owner).0 (ground (arith, h, e, d))))
  ]
]

passed :
    (r : Request) (org : ℕ) (w : World) (role : String)
    → (authorize_org r org w).0 ≡ ok role
    → (role_of (find (is_member org r.user_id) w.members) ≡ ok role)
      × ((is_mutation r.method ≡ false) ⊎ (can_write role ≡ true))
unfolding authorize_org role_in_org query ◌>>=◌ or_raise catch guard pure raise
passed r org w role h = ground arith

-- A request that `authorize_org` lets through is of a member of the org, and its method is GET, HEAD
-- or OPTIONS, or the member's role is member, admin or owner.
pub authorize_org_sound :
    (r : Request) (org : ℕ) (w : World) (role : String)
    → (authorize_org r org w).0 ≡ ok role
    → (role_of (find (is_member org r.user_id) w.members) ≡ ok role)
      × (IsRead r.method ⊎ IsWriter role)
authorize_org_sound r org w role h =
    let (same, how) = passed r org w role h in
    (
      same,
      elim how [
        | inl read ↦ inl (is_mutation-IsRead r.method read)
        | inr write ↦ inr (can_write-IsWriter role write)
      ],
    )

at_least-rank : (role min : String) → at_least role min ≡ true → rank min ≤ rank role
unfolding at_least
at_least-rank role min h = go (rank role) (rank min) h
  where
    go : (a b : ℕ) → (leb b a && ltb 0 a) ≡ true → b ≤ a
    go a b e = ground arith

let_through :
    (r : Request) (org : ℕ) (min : String) (w : World) (role : String)
    → (require_org_role r org min w).0 ≡ ok role
    → (role_of (find (is_member org r.user_id) w.members) ≡ ok role) × (at_least role min ≡ true)
unfolding require_org_role role_in_org query ◌>>=◌ or_raise catch guard pure raise
let_through r org min w role h = ground arith

-- A request that `require_org_role` lets through is of a member of the org whose role ranks at least
-- as high as the one required.
require_org_role_sound :
    (r : Request) (org : ℕ) (min : String) (w : World) (role : String)
    → (require_org_role r org min w).0 ≡ ok role
    → (role_of (find (is_member org r.user_id) w.members) ≡ ok role) × (rank min ≤ rank role)
require_org_role_sound r org min w role h =
    let (same, high) = let_through r org min w role h in (same, at_least-rank role min high)
