-- ===== src/Deploy/Lifecycle.antt =====
-- The transition table as a relation, and what it says of the life of a deploy.
use uran_api.Prelude.{
  ℕ, ◌<◌, String, ◌≡◌, refl, ◌↔◌, ◌⊎◌, inl, inr, true, false, arith, eq_iff, ◌==◌, nat_eq,
  string_eq, if◌then◌else◌,
}
use uran_api.Deploy.{
  status_queued, status_building, status_deploying, status_live, status_failed, can_transition,
  is_terminal,
}

-- The diagram, edge by edge; an edge holds its ends as equations.
pub data Moves (s t : String) : Type 0 where
  claim : s ≡ status_queued → t ≡ status_building → Moves s t
  ship : s ≡ status_building → t ≡ status_deploying → Moves s t
  go_live : s ≡ status_deploying → t ≡ status_live → Moves s t
  give_up :
      (s ≡ status_queued) ⊎ ((s ≡ status_building) ⊎ (s ≡ status_deploying))
      → t ≡ status_failed
      → Moves s t

infix 40 ◌⟶*◌
-- Any number of allowed moves, none included.
pub data ◌⟶*◌ (s : String) : String → Type 0 where
  here : s ⟶* s
  move : {t u : String} → s ⟶* t → can_transition t u ≡ true → s ⟶* u

pub ⟶*-trans : {s t u : String} → s ⟶* t → t ⟶* u → s ⟶* u
⟶*-trans p here = p
⟶*-trans p (move q e) = move (⟶*-trans p q) e

pub can_transition-Moves : (s t : String) → can_transition s t ≡ true → Moves s t
unfolding can_transition
can_transition-Moves s t h = grind (
  arith,
  eq_iff s status_queued,
  eq_iff s status_building,
  eq_iff s status_deploying,
  eq_iff status_building t,
  eq_iff status_failed t,
  eq_iff status_deploying t,
  eq_iff status_live t,
  claim,
  ship,
  go_live,
  give_up,
)

Moves-can_transition : (s t : String) → Moves s t → can_transition s t ≡ true
unfolding can_transition
Moves-can_transition s t (claim p q) = rw (p, q) refl
Moves-can_transition s t (ship p q) = rw (p, q) refl
Moves-can_transition s t (go_live p q) = rw (p, q) refl
Moves-can_transition s t (give_up (inl p) q) = rw (p, q) refl
Moves-can_transition s t (give_up (inr (inl p)) q) = rw (p, q) refl
Moves-can_transition s t (give_up (inr (inr p)) q) = rw (p, q) refl

-- `can_transition` allows exactly the edges of the diagram: queued to building, building to
-- deploying, deploying to live, and each of the three to failed.
pub can_transition_iff : (s t : String) → (can_transition s t ≡ true) ↔ Moves s t
can_transition_iff s t = (can_transition-Moves s t, Moves-can_transition s t)

-- How far along its life a deploy is.
stage : String → ℕ
stage s =
    if s == status_queued
    then 0
    else if s == status_building
    then 1
    else if s == status_deploying
    then 2
    else 3

stage-lt : (s t : String) → can_transition s t ≡ true → stage s < stage t
unfolding stage
stage-lt s t h = go (can_transition-Moves s t h)
  where
    go : Moves s t → stage s < stage t
    go (claim p q) = rw (p, q) (omega arith)
    go (ship p q) = rw (p, q) (omega arith)
    go (go_live p q) = rw (p, q) (omega arith)
    go (give_up (inl p) q) = rw (p, q) (omega arith)
    go (give_up (inr (inl p)) q) = rw (p, q) (omega arith)
    go (give_up (inr (inr p)) q) = rw (p, q) (omega arith)

-- A status is terminal exactly if no move leaves it.
pub is_terminal_iff :
    (s : String) → (is_terminal s ≡ true) ↔ ((t : String) → can_transition s t ≡ false)
unfolding is_terminal can_transition
is_terminal_iff s = (stuck, λ h. ground (arith, h status_failed))
  where
    stuck : is_terminal s ≡ true → (t : String) → can_transition s t ≡ false
    stuck h t = ground arith

-- A status that is not terminal may fail.
pub failed_reachable : (s : String) → is_terminal s ≡ false → can_transition s status_failed ≡ true
unfolding is_terminal can_transition
failed_reachable s h = ground arith

-- A deploy in a terminal status stays in it.
pub terminal_stays : {s t : String} → is_terminal s ≡ true → s ⟶* t → t ≡ s
terminal_stays h here = refl
terminal_stays {s} h (move {t} {u} p e) = cc (terminal_stays h p, (is_terminal_iff s).0 h u)
