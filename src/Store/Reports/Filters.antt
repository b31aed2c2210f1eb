-- ===== src/Store/Reports/Filters.antt =====
-- internal/store/audit.go: the filters of an audit log, one after the other.
use uran_api.Prelude.{
  ◌≡◌, refl, ap, ◌∙◌, ℕ, Text, String, Bool, true, false, ◌&&◌, ◌||◌, Bool-cases, inl, inr, List,
  [], ◌∷◌, ◌++◌, ◌==◌, nat_eq, text_eq, string_eq, select, if◌then◌else◌,
}
use uran_api.Go.Text.{codes}
use uran_api.Store.{World}
use uran_api.Store.Models.{AuditLog}
use uran_api.Store.Reports.{AuditQuery, is_audited}

module _ {A : Type 0} where
  select-and : (p q : A → Bool) (xs : List A) → select (λ x. p x && q x) xs ≡ select q (select p xs)
  unfolding select
  select-and p q [] = refl
  select-and p q (x ∷ xs) = elim (Bool-cases (p x)) [
    | inl e ↦ elim (Bool-cases (q x)) [
      | inl d ↦ rw (e, d) (ap (λ ys. x ∷ ys) (select-and p q xs))
      | inr d ↦ rw (e, d) (select-and p q xs)
    ]
    | inr e ↦ rw e (select-and p q xs)
  ]

  select-all : (xs : List A) → select (λ x. true) xs ≡ xs
  unfolding select
  select-all [] = refl
  select-all (x ∷ xs) = ap (λ ys. x ∷ ys) (select-all xs)

  select-or :
      (b : Bool) (p : A → Bool) (xs : List A)
      → select (λ x. b || p x) xs ≡ (if b then xs else select p xs)
  select-or true p xs = select-all xs
  select-or false p xs = refl

-- The rows that a user left.
abbrev pub own : ℕ → List AuditLog → List AuditLog
own actor_id = select (λ l. l.actor_user_id == actor_id)

-- The rows whose path the search finds; all of them for an empty search.
abbrev pub searched : (Text → Text → Bool) → Text → List AuditLog → List AuditLog
searched ilike search ls =
    if search == [] then ls else select (λ l. ilike l.path (codes "%" ++ (search ++ codes "%"))) ls

-- The rows of a method; all of them for an empty one.
abbrev pub of_method : String → List AuditLog → List AuditLog
of_method method ls = if method == "" then ls else select (λ l. l.method == method) ls

-- The rows of a user that a search and a method pick, newest first.
abbrev pub picked : (Text → Text → Bool) → ℕ → Text → String → World → List AuditLog
picked ilike actor_id search method w =
    of_method method (searched ilike search (own actor_id w.audit_logs))

pub select-is_audited :
    (ilike : Text → Text → Bool) (actor_id : ℕ) (q : AuditQuery) (w : World)
    → select (is_audited ilike actor_id q) w.audit_logs ≡ picked ilike actor_id q.search q.method w
unfolding is_audited
select-is_audited ilike actor_id q w =
    select-and (λ l. l.actor_user_id == actor_id) _ w.audit_logs
    ∙ select-and (λ l. q.search == [] || ilike l.path (codes "%" ++ (q.search ++ codes "%"))) _
        (own actor_id w.audit_logs)
    ∙ select-or (q.method == "") (λ l. l.method == q.method) _
    ∙ ap (of_method q.method) (select-or (q.search == []) _ (own actor_id w.audit_logs))
