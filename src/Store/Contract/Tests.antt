-- ===== src/Store/Contract/Tests.antt =====
-- The contract of `Store.Contract` at concrete runs, on a disk that is full.
use oxiscale.Prelude.{◌≡◌, refl, true, some, [], ◌∷◌, ok}
use oxiscale.Store.Calls.{Reply, upsert_node, get_node}
use oxiscale.Store.Spec.{advance_all, IsAnswer}
use oxiscale.Store.Samples.{calendar, sensor}
use oxiscale.Store.Memory
use oxiscale.Store.Memory.Refines.{view}
use oxiscale.Store.Memory.Unique.{IsWellFormed}
use oxiscale.Store.Table.{find, upsert}
use oxiscale.Store.File.Trace.{perform}
use oxiscale.Store.File.Methods
use oxiscale.Store.File.Tests.{holding}
use oxiscale.Store.File.SampleDisk.{disk_host, empty_disk}
use oxiscale.Store.Contract.{run_all}
use oxiscale.Store.Contract.Backends.{file_backend, file_refines}

holding-IsWellFormed : IsWellFormed holding.memory.inner
unfolding find
holding-IsWellFormed = record { networks = tt; users = tt; nodes = tt; preauth_keys = (refl, tt) }

-- The node is stored in memory although the call fails, and is found.
stored_anyway :
    ((file_backend (disk_host true) calendar).perform (get_node sensor.id) (
      run_all
        (file_backend (disk_host true) calendar)
        (upsert_node sensor ∷ [])
        (holding, empty_disk))).0
    ≡ ok (Reply.node (some sensor))
unfolding perform Methods.upsert_node Methods.get_node Methods.mutate Memory.upsert_node
    Memory.get_node Memory.new find upsert
stored_anyway = refl

file_refines_example :
    IsAnswer calendar
      (get_node sensor.id)
      (advance_all calendar (upsert_node sensor ∷ []) (view holding.memory))
      (ok (Reply.node (some sensor)))
file_refines_example =
    file_refines (disk_host true) calendar (upsert_node sensor ∷ []) (get_node sensor.id) holding
      empty_disk (Reply.node (some sensor)) holding-IsWellFormed stored_anyway
