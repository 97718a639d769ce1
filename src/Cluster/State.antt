-- ===== src/Cluster/State.antt =====
-- internal/cluster/state/manager.go: the dirty flag of the saved cluster state and the request to
-- save it. The file itself is written by the operating system and is not modelled.
pub mod Loop
mod Tests
use autocache.Prelude.{Bool, true, if◌then◌else◌}

-- `dirty`, and whether the channel `saveCh`, which holds one signal, has one.
pub record StateManager : Type 0 where
  pub dirty : Bool
  pub save_pending : Bool

-- `MarkDirty`: only the call that sets the flag sends a signal, and a full channel keeps its own.
unfoldable pub mark_dirty : StateManager → StateManager
mark_dirty m = if m.dirty then m else record { dirty = true; save_pending = true }
