-- ===== src/Cluster/State/Loop/Calm.antt =====
-- internal/cluster/state/manager.go: when no save fails and nothing changes during one, the loop brings
-- every change to the file.
use autocache.Prelude.{ℕ, ◌≡◌, refl, ap, true, false, none, some}
use autocache.Cluster.State.{StateManager, mark_dirty}
use autocache.Cluster.State.Loop.{
  SaveLoop, signalled, timed_out, saved, Step, change, signal, expire, finish, fail, IsCalm,
  CalmReach, here, next, new_loop,
}
use autocache.Cluster.State.Loop.Phases.{Shows}

-- A phase in which a change that is not in the file is on its way there.
pub data OnTheWay (p : SaveLoop) : Type 0 where
  settled : Shows false false false none p → p.file ≡ p.current → OnTheWay p
  asked : Shows true true false none p → OnTheWay p
  waiting : Shows true false true none p → OnTheWay p
  reading : Shows true false false (some p.current) p → OnTheWay p

Step-OnTheWay : {p q : SaveLoop} (t : Step p q) → IsCalm t → OnTheWay p → OnTheWay q
unfolding mark_dirty IsCalm
Step-OnTheWay (change p) c (settled (m, t, s) f) = asked (rw m refl, t, s)
Step-OnTheWay (change p) c (asked (m, t, s)) = asked (rw m refl, t, s)
Step-OnTheWay (change p) c (waiting (m, t, s)) = waiting (rw m refl, t, s)
Step-OnTheWay (change p) c (reading (m, t, s)) = absurd (cc (c, s))
Step-OnTheWay (signal p e n) c (asked (m, t, s)) = waiting (rw m refl, refl, s)
Step-OnTheWay (signal p e n) c (settled (m, t, s) f) = absurd (cc (e, m))
Step-OnTheWay (signal p e n) c (waiting (m, t, s)) = absurd (cc (e, m))
Step-OnTheWay (signal p e n) c (reading (m, t, s)) = absurd (cc (e, m))
Step-OnTheWay (expire p e n) c (waiting (m, t, s)) = reading (m, refl, rw m refl)
Step-OnTheWay (expire p e n) c (settled (m, t, s) f) = absurd (cc (e, t))
Step-OnTheWay (expire p e n) c (asked (m, t, s)) = absurd (cc (e, t))
Step-OnTheWay (expire p e n) c (reading (m, t, s)) = absurd (cc (e, t))
Step-OnTheWay (finish p v e) c (reading (m, t, s)) = settled (rw m refl, t, refl) (cc (e, s))
Step-OnTheWay (finish p v e) c (settled (m, t, s) f) = absurd (cc (e, s))
Step-OnTheWay (finish p v e) c (asked (m, t, s)) = absurd (cc (e, s))
Step-OnTheWay (finish p v e) c (waiting (m, t, s)) = absurd (cc (e, s))
Step-OnTheWay (fail p v e) c h = absurd c

CalmReach-OnTheWay : {p : SaveLoop} → CalmReach new_loop p → OnTheWay p
CalmReach-OnTheWay here = settled (refl, refl, refl) refl
CalmReach-OnTheWay (next r t c) = Step-OnTheWay t c (CalmReach-OnTheWay r)

-- The file has the state as it is, and nothing is left to do.
abbrev pub IsSaved : ℕ → SaveLoop → Type 0
IsSaved n p = (p.file ≡ n) × (p.manager.dirty ≡ false)

-- The loop can go on to such a state, without a change.
abbrev pub CanSave : SaveLoop → Type 0
CanSave p = (q : SaveLoop) × CalmReach p q × IsSaved p.current q

read-CanSave : (p s : SaveLoop) → CalmReach s p → p.saving ≡ some s.current → CanSave s
unfolding IsCalm
read-CanSave p s r e = (saved s.current p, next r (finish p s.current e) tt, (refl, refl))

wait-CanSave :
    (p s : SaveLoop)
    → CalmReach s p
    → Shows true false true none p
    → p.current ≡ s.current
    → CanSave s
unfolding IsCalm
wait-CanSave p s r (m, t, n) e =
    read-CanSave (timed_out p) s (next r (expire p t n) tt) (rw m (ap some e))

way-CanSave : (p : SaveLoop) → OnTheWay p → CanSave p
unfolding IsCalm
way-CanSave p (settled (m, t, s) f) = (p, here, (f, ap (λ (n : StateManager). n.dirty) m))
way-CanSave p (asked (m, t, s)) =
    wait-CanSave (signalled p) p
      (next here (signal p (ap (λ (n : StateManager). n.save_pending) m) s) tt) (rw m refl, refl, s)
      refl
way-CanSave p (waiting shows) = wait-CanSave p p here shows refl
way-CanSave p (reading (m, t, s)) = read-CanSave p p here s

-- As long as no save fails and nothing changes during one: where the flag is not set, the file has the
-- state as it is, and from everywhere the loop can go on, without another change, until it has.
pub CalmReach-IsSaved :
    {p : SaveLoop}
    → CalmReach new_loop p
    → (p.manager.dirty ≡ false → p.file ≡ p.current) × CanSave p
CalmReach-IsSaved {p = p} r = (by (CalmReach-OnTheWay r), way-CanSave p (CalmReach-OnTheWay r))
  where
    by : OnTheWay p → p.manager.dirty ≡ false → p.file ≡ p.current
    by (settled _ f) e = f
    by (asked (m, _, _)) e = absurd (cc (m, e))
    by (waiting (m, _, _)) e = absurd (cc (m, e))
    by (reading (m, _, _)) e = absurd (cc (m, e))
