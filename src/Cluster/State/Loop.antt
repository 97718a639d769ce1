-- ===== src/Cluster/State/Loop.antt =====
-- internal/cluster/state/manager.go: the loop that saves the cluster state, as steps. The states that
-- the cluster goes through are numbered, and a file is known by the number of the state it was made
-- from. A provider is set, and nobody calls `Save` or `Close` meanwhile.
pub mod Phases
pub mod Calm
use autocache.Prelude.{
  ℕ, ◌+◌, ◌≡◌, refl, sym, ap, ◌∙◌, Bool, true, false, Option, none, some, if◌then◌else◌, arith,
}
use autocache.Cluster.State.{StateManager, mark_dirty}

pub record SaveLoop : Type 0 where
  pub current : ℕ
  pub file : ℕ
  pub manager : StateManager
  pub timer : Bool
  pub saving : Option ℕ

-- A change of the cluster's state, and `MarkDirty` after it.
abbrev pub changed : SaveLoop → SaveLoop
changed p = record p { current = p.current + 1; manager = mark_dirty p.manager }

-- The first case of `saveLoop`: the signal is taken and the timer started.
abbrev pub signalled : SaveLoop → SaveLoop
signalled p = record p { manager = record p.manager { save_pending = false }; timer = true }

-- The second case: the timer is up, and `save` reads the state if the flag is set.
abbrev pub timed_out : SaveLoop → SaveLoop
timed_out p = record p { timer = false; saving = if p.manager.dirty then some p.current else none }

-- The end of `save`, with the state that it has read, and its end by an error.
abbrev pub saved : ℕ → SaveLoop → SaveLoop
saved v p = record p { file = v; manager = record p.manager { dirty = false }; saving = none }

abbrev pub not_saved : SaveLoop → SaveLoop
not_saved p = record p { saving = none }

pub data Step : SaveLoop → SaveLoop → Type 0 where
  change : (p : SaveLoop) → Step p (changed p)
  signal : (p : SaveLoop) → p.manager.save_pending ≡ true → p.saving ≡ none → Step p (signalled p)
  expire : (p : SaveLoop) → p.timer ≡ true → p.saving ≡ none → Step p (timed_out p)
  finish : (p : SaveLoop) (v : ℕ) → p.saving ≡ some v → Step p (saved v p)
  fail : (p : SaveLoop) (v : ℕ) → p.saving ≡ some v → Step p (not_saved p)

pub data Reach (s : SaveLoop) : SaveLoop → Type 0 where
  here : Reach s s
  next : {p q : SaveLoop} → Reach s p → Step p q → Reach s q

-- A step of which nothing goes wrong: no save fails, and the state does not change during a save.
unfoldable pub IsCalm : {p q : SaveLoop} → Step p q → Type 0
IsCalm (change p) = p.saving ≡ none
IsCalm (fail p v e) = ⊥
IsCalm _ = Unit

pub data CalmReach (s : SaveLoop) : SaveLoop → Type 0 where
  here : CalmReach s s
  next : {p q : SaveLoop} → CalmReach s p → (t : Step p q) → IsCalm t → CalmReach s q

-- `NewStateManager`
abbrev pub new_loop : SaveLoop
new_loop = record {
  current = 0;
  file = 0;
  manager = record { dirty = false; save_pending = false };
  timer = false;
  saving = none;
}
