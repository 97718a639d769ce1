-- ===== src/Cluster/Slots/Migrate.antt =====
-- internal/cluster/slots.go: the marks that a migration sets on a slot. These methods index the
-- array of slots with no check, so a slot out of range is a panic, `none`.
use autocache.Prelude.{ℕ, String, Option, none, some, str_eq, ltb, if◌then◌else◌}
use autocache.Cluster.Hash.{slot_count}
use autocache.Cluster.Slots.{
  SlotManager, normal, importing, exporting, mark_dirty, put_slot, set_owner,
}

abbrev within : ℕ → SlotManager → Option SlotManager
within slot sm = if ltb slot slot_count then some sm else none

-- `SetImporting`
unfoldable pub set_importing : ℕ → String → SlotManager → Option SlotManager
unfolding mark_dirty put_slot
set_importing slot from sm =
    within slot (
      mark_dirty
        (put_slot sm slot (record (sm.slots slot) { state = importing; importing = from })))

-- `SetExporting`
unfoldable pub set_exporting : ℕ → String → SlotManager → Option SlotManager
unfolding mark_dirty put_slot
set_exporting slot to sm =
    within slot
      (mark_dirty (put_slot sm slot (record (sm.slots slot) { state = exporting; exporting = to })))

-- `SetStable`
unfoldable pub set_stable : ℕ → SlotManager → Option SlotManager
unfolding mark_dirty put_slot
set_stable slot sm =
    let info = sm.slots slot in
    within slot (
      mark_dirty (
        put_slot sm slot (record info {
          state = normal;
          importing = "";
          exporting = "";
          primary_id = if str_eq info.primary_id "" then info.node_id else info.primary_id;
        })))

-- `FinishMigration`
unfoldable pub finish_migration : ℕ → String → SlotManager → Option SlotManager
unfolding mark_dirty set_owner
finish_migration slot node sm =
    let sm' = set_owner sm slot node in
    within slot (
      mark_dirty (
        put_slot sm' slot (record (sm'.slots slot) {
          state = normal;
          primary_id = node;
          importing = "";
          exporting = "";
        })))
