-- ===== src/Api/Members/Owners.antt =====
-- The owners of an org under the member handlers.
use mathlib.Core.Option
use uran_api.Prelude.{
  ℕ, ◌+◌, String, ◌≡◌, refl, inl, inr, Bool, true, false, Option, none, some, List, [], ◌∷◌, arith,
  nat_eq, string_eq, if◌then◌else◌, nat_beq_iff, find, select, update, discard, any, All, length,
  All-map, All-discard, All-update, Bool-cases,
}
use uran_api.Store.Models.{Membership}
use uran_api.Store.Members.{is_member, set_role, upsert_row, is_owner_of}

-- No two rows of one org and one user.
abbrev pub UniqueMembers : List Membership → Type 0
UniqueMembers [] = Unit
UniqueMembers (m ∷ ms) = All (λ x. is_member m.org_id m.user_id x ≡ false) ms × UniqueMembers ms

abbrev pub owners : ℕ → List Membership → ℕ
owners o ms = length (select (is_owner_of o) ms)

-- 1 for an owner's row.
abbrev pub counts : ℕ → Option Membership → ℕ
counts o none = 0
counts o (some m) = if is_owner_of o m then 1 else 0

untouched :
    (o org user : ℕ) (ms : List Membership)
    → All (λ x. is_member org user x ≡ false) ms
    → discard (is_member org user) ms ≡ ms
unfolding discard
untouched o org user [] a = refl
untouched o org user (m ∷ ms) a = ground (arith, untouched o org user ms a.1)

same_key :
    (m : Membership) (org user : ℕ) (ms : List Membership)
    → is_member org user m ≡ true
    → All (λ x. is_member m.org_id m.user_id x ≡ false) ms
    → All (λ x. is_member org user x ≡ false) ms
same_key m org user ms hit a =
    All-map _ _ ms (λ x h. ground (arith, nat_beq_iff m.org_id org, nat_beq_iff m.user_id user)) a

pub owners-discard :
    (o org user : ℕ) (ms : List Membership)
    → UniqueMembers ms
    → owners o (discard (is_member org user) ms) + counts o (find (is_member org user) ms)
      ≡ owners o ms
unfolding discard find select
owners-discard o org user [] u = omega arith
owners-discard o org user (m ∷ ms) u = elim (Bool-cases (is_member org user m)) [
  | inl hit ↦ rw (hit, untouched o org user ms (same_key m org user ms hit u.0)) (ground arith)
  | inr miss ↦ rw miss (ground (arith, owners-discard o org user ms u.1))
]

pub UniqueMembers-discard :
    (p : Membership → Bool) (ms : List Membership) → UniqueMembers ms → UniqueMembers (discard p ms)
unfolding discard
UniqueMembers-discard p [] u = u
UniqueMembers-discard p (m ∷ ms) u = ground (
  arith,
  UniqueMembers-discard p ms u.1,
  All-discard (λ x. is_member m.org_id m.user_id x ≡ false) p ms u.0,
)

update_untouched :
    (org user : ℕ) (role : String) (ms : List Membership)
    → All (λ x. is_member org user x ≡ false) ms
    → update (is_member org user) (set_role role) ms ≡ ms
unfolding update
update_untouched org user role [] a = refl
update_untouched org user role (m ∷ ms) a = rw (a.0, update_untouched org user role ms a.1) refl

pub owners-update :
    (o org user : ℕ) (role : String) (ms : List Membership)
    → UniqueMembers ms
    → owners o (update (is_member org user) (set_role role) ms)
        + counts o (find (is_member org user) ms)
      ≡ owners o ms + counts o (Option.map (set_role role) (find (is_member org user) ms))
unfolding update find select
owners-update o org user role [] u = omega arith
owners-update o org user role (m ∷ ms) u = elim (Bool-cases (is_member org user m)) [
  | inl hit ↦
      rw (hit, update_untouched org user role ms (same_key m org user ms hit u.0)) (ground arith)
  | inr miss ↦ rw miss (ground (arith, owners-update o org user role ms u.1))
]

UniqueMembers-update :
    (org user : ℕ) (role : String) (ms : List Membership)
    → UniqueMembers ms
    → UniqueMembers (update (is_member org user) (set_role role) ms)
unfolding update
UniqueMembers-update org user role [] u = tt
UniqueMembers-update org user role (m ∷ ms) u =
    (head (is_member org user m), UniqueMembers-update org user role ms u.1)
  where
    kept :
        All
          (λ x. is_member m.org_id m.user_id x ≡ false)
          (update (is_member org user) (set_role role) ms)
    kept = All-update _ (is_member org user) (set_role role) ms (λ x h e. e) u.0

    head :
        (b : Bool)
        → All
            (λ x.
              is_member
                (if b then set_role role m else m).org_id
                (if b then set_role role m else m).user_id
                x
              ≡ false)
            (update (is_member org user) (set_role role) ms)
    head true = kept
    head false = kept

pub any-All :
    (p : Membership → Bool) (ms : List Membership) → any p ms ≡ false → All (λ x. p x ≡ false) ms
unfolding any
any-All p [] h = tt
any-All p (m ∷ ms) h = (ground arith, any-All p ms (ground arith))

pub UniqueMembers-upsert :
    (org user : ℕ) (role : String) (ms : List Membership)
    → UniqueMembers ms
    → UniqueMembers (upsert_row org user role ms)
unfolding upsert_row
UniqueMembers-upsert org user role ms u = elim (Bool-cases (any (is_member org user) ms)) [
  | inl e ↦ rw e (UniqueMembers-update org user role ms u)
  | inr e ↦ rw e (any-All (is_member org user) ms e, u)
]
