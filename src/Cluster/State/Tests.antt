-- ===== src/Cluster/State/Tests.antt =====
-- internal/cluster/state/manager.go: runs of the loop that saves.
use autocache.Prelude.{◌≡◌, refl, true, false, none, some}
use autocache.Cluster.State.{mark_dirty}
use autocache.Cluster.State.Loop.{
  SaveLoop, changed, signalled, timed_out, saved, not_saved, change, signal, expire, Reach, here,
  next, IsCalm, CalmReach, new_loop,
}
use autocache.Cluster.State.Loop.Phases.{IsStalled, not_saved-IsStalled}
use autocache.Cluster.State.Loop.Calm.{CanSave, CalmReach-IsSaved}

-- A change, its signal, and the timer.
abbrev asking : SaveLoop
asking = changed new_loop

abbrev waiting : SaveLoop
waiting = signalled asking

abbrev reading : SaveLoop
reading = timed_out waiting

is_pending : asking.manager.save_pending ≡ true
unfolding mark_dirty
is_pending = refl

read : reading.saving ≡ some 1
unfolding mark_dirty
read = refl

run : Reach new_loop reading
run =
    next (next (next here (change new_loop)) (signal asking is_pending refl))
      (expire waiting refl refl)

not_saved-IsStalled_example : IsStalled 0 (changed (not_saved reading))
not_saved-IsStalled_example =
    not_saved-IsStalled 1 run read (next here (change (not_saved reading)))

calm_run : CalmReach new_loop reading
unfolding IsCalm
calm_run =
    next (next (next here (change new_loop) refl) (signal asking is_pending refl) tt)
      (expire waiting refl refl) tt

CalmReach-IsSaved_example :
    (reading.manager.dirty ≡ false → reading.file ≡ reading.current) × CanSave reading
CalmReach-IsSaved_example = CalmReach-IsSaved calm_run

-- A change while the file is written is not in the file, and nothing is on its way to save it.
change_lost :
    let p = saved 1 (changed reading) in
    (p.manager ≡ record { dirty = false; save_pending = false })
    × (p.timer ≡ false)
    × (p.saving ≡ none)
    × (p.file ≡ 1)
    × (p.current ≡ 2)
unfolding mark_dirty
change_lost = (refl, refl, refl, refl, refl)
