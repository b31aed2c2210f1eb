-- ===== src/Rbac.antt =====
-- internal/rbac/rbac.go: the roles of org members and their order.
use uran_api.Prelude.{ℕ, String, Bool, ◌&&◌, ◌==◌, string_eq, leb, ltb, if◌then◌else◌}

abbrev pub viewer : String
viewer = "viewer"

abbrev pub member : String
member = "member"

abbrev pub admin : String
admin = "admin"

abbrev pub owner : String
owner = "owner"

-- A role that the map lacks has rank 0.
unfoldable pub rank : String → ℕ
rank r =
    if r == viewer
    then 1
    else if r == member
    then 2
    else if r == admin
    then 3
    else if r == owner
    then 4
    else 0

-- `_, ok := rank[r]`: no entry of the map is 0.
unfoldable pub is_valid : String → Bool
unfolding rank
is_valid r = ltb 0 (rank r)

unfoldable pub at_least : String → String → Bool
unfolding rank
at_least role min = leb (rank min) (rank role) && ltb 0 (rank role)

unfoldable pub can_write : String → Bool
unfolding at_least
can_write role = at_least role member
