-- ===== src/Cluster/State/Loop/Phases.antt =====
-- internal/cluster/state/manager.go: the phases of the loop, and what a save that fails leaves.
use autocache.Prelude.{ℕ, ◌≡◌, refl, Bool, true, false, Option, none, some}
use autocache.Cluster.State.{mark_dirty}
use autocache.Cluster.State.Loop.{
  SaveLoop, not_saved, Step, change, signal, expire, finish, fail, Reach, here, next, new_loop,
}

-- The flag, the signal, the timer and the state that a save has read.
abbrev pub Shows : Bool → Bool → Bool → Option ℕ → SaveLoop → Type 0
Shows dirty pending timer saving p =
    (p.manager ≡ record { dirty = dirty; save_pending = pending })
    × (p.timer ≡ timer)
    × (p.saving ≡ saving)

-- Nothing to save; a save asked for; the timer running; a save under way; or a change that no signal,
-- no timer and no save is on its way for.
pub data Phase (p : SaveLoop) : Type 0 where
  settled : Shows false false false none p → Phase p
  asked : Shows true true false none p → Phase p
  waiting : Shows true false true none p → Phase p
  reading : (v : ℕ) → Shows true false false (some v) p → Phase p
  stalled : Shows true false false none p → Phase p

Step-Phase : {p q : SaveLoop} → Step p q → Phase p → Phase q
unfolding mark_dirty
Step-Phase (change p) (settled (m, t, s)) = asked (rw m refl, t, s)
Step-Phase (change p) (asked (m, t, s)) = asked (rw m refl, t, s)
Step-Phase (change p) (waiting (m, t, s)) = waiting (rw m refl, t, s)
Step-Phase (change p) (reading v (m, t, s)) = reading v (rw m refl, t, s)
Step-Phase (change p) (stalled (m, t, s)) = stalled (rw m refl, t, s)
Step-Phase (signal p e n) (asked (m, t, s)) = waiting (rw m refl, refl, s)
Step-Phase (signal p e n) (settled (m, t, s)) = absurd (cc (e, m))
Step-Phase (signal p e n) (waiting (m, t, s)) = absurd (cc (e, m))
Step-Phase (signal p e n) (reading v (m, t, s)) = absurd (cc (e, m))
Step-Phase (signal p e n) (stalled (m, t, s)) = absurd (cc (e, m))
Step-Phase (expire p e n) (waiting (m, t, s)) = reading p.current (m, refl, rw m refl)
Step-Phase (expire p e n) (settled (m, t, s)) = absurd (cc (e, t))
Step-Phase (expire p e n) (asked (m, t, s)) = absurd (cc (e, t))
Step-Phase (expire p e n) (reading v (m, t, s)) = absurd (cc (e, t))
Step-Phase (expire p e n) (stalled (m, t, s)) = absurd (cc (e, t))
Step-Phase (finish p v e) (reading w (m, t, s)) = settled (rw m refl, t, refl)
Step-Phase (finish p v e) (settled (m, t, s)) = absurd (cc (e, s))
Step-Phase (finish p v e) (asked (m, t, s)) = absurd (cc (e, s))
Step-Phase (finish p v e) (waiting (m, t, s)) = absurd (cc (e, s))
Step-Phase (finish p v e) (stalled (m, t, s)) = absurd (cc (e, s))
Step-Phase (fail p v e) (reading w (m, t, s)) = stalled (m, t, refl)
Step-Phase (fail p v e) (settled (m, t, s)) = absurd (cc (e, s))
Step-Phase (fail p v e) (asked (m, t, s)) = absurd (cc (e, s))
Step-Phase (fail p v e) (waiting (m, t, s)) = absurd (cc (e, s))
Step-Phase (fail p v e) (stalled (m, t, s)) = absurd (cc (e, s))

Reach-Phase : {p : SaveLoop} → Reach new_loop p → Phase p
Reach-Phase here = settled (refl, refl, refl)
Reach-Phase (next r t) = Step-Phase t (Reach-Phase r)

-- A change that is on its way to no file, and what the file has.
abbrev pub IsStalled : ℕ → SaveLoop → Type 0
IsStalled file p = Shows true false false none p × (p.file ≡ file)

Step-IsStalled : {p q : SaveLoop} (file : ℕ) → Step p q → IsStalled file p → IsStalled file q
unfolding mark_dirty
Step-IsStalled file (change p) ((m, t, s), f) = ((rw m refl, t, s), f)
Step-IsStalled file (signal p e n) ((m, t, s), f) = absurd (cc (e, m))
Step-IsStalled file (expire p e n) ((m, t, s), f) = absurd (cc (e, t))
Step-IsStalled file (finish p v e) ((m, t, s), f) = absurd (cc (e, s))
Step-IsStalled file (fail p v e) ((m, t, s), f) = absurd (cc (e, s))

Reach-IsStalled : {p q : SaveLoop} (file : ℕ) → IsStalled file p → Reach p q → IsStalled file q
Reach-IsStalled file h here = h
Reach-IsStalled file h (next r t) = Step-IsStalled file t (Reach-IsStalled file h r)

failed-IsStalled :
    (p : SaveLoop) (v : ℕ) → p.saving ≡ some v → Phase p → IsStalled p.file (not_saved p)
failed-IsStalled p v e (reading w (m, t, s)) = ((m, t, refl), refl)
failed-IsStalled p v e (settled (m, t, s)) = absurd (cc (e, s))
failed-IsStalled p v e (asked (m, t, s)) = absurd (cc (e, s))
failed-IsStalled p v e (waiting (m, t, s)) = absurd (cc (e, s))
failed-IsStalled p v e (stalled (m, t, s)) = absurd (cc (e, s))

-- After a save that fails, in any run of the loop from its start, whatever the loop and the cluster
-- do, the flag stays set, no signal is sent and no timer runs, and the file stays as it was.
pub not_saved-IsStalled :
    {p q : SaveLoop} (v : ℕ)
    → Reach new_loop p
    → p.saving ≡ some v
    → Reach (not_saved p) q
    → IsStalled p.file q
not_saved-IsStalled {p = p} v r e later =
    Reach-IsStalled p.file (failed-IsStalled p v e (Reach-Phase r)) later
