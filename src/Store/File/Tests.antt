-- ===== src/Store/File/Tests.antt =====
-- The file store of crates/control-core/src/store/file.rs on a concrete disk, and the theorems at
-- concrete inputs.
use oxiscale.Prelude.{ℕ, ◌≡◌, refl, true, false, none, some, List, [], ◌∷◌, ok, err}
use oxiscale.Store.Types.{other_kind, io}
use oxiscale.Store.FilePath.{FilePath, extension, split_last_dot, with_extension}
use oxiscale.Store.Calls.{Call, Reply, upsert_node, upsert_preauth_key, consume_preauth_key}
use oxiscale.Store.Table.{find, write_first, upsert}
use oxiscale.Store.Memory
use oxiscale.Store.Memory.{preauth_key_expired}
use oxiscale.Store.Memory.Trace as MemoryTrace
use oxiscale.Store.Samples.{calendar, today, sample_key, with_key, sensor}
use oxiscale.Store.File.{
  FileStore, json, yaml, from_path, serialize, load, open_store, flush, tmp_extension,
}
use oxiscale.Store.File.Methods
use oxiscale.Store.File.Trace
use oxiscale.Store.File.Flush.{Flushed, flush-Flushed}
use oxiscale.Store.File.Durable.{Ends, perform-Ends}
use oxiscale.Store.File.Restart.{IsOpened, Loads, run, restart-Loads, failed_call}
use oxiscale.Store.File.Healthy.{Serializable, run_completes}
use oxiscale.Store.File.Lost.{consume_lost}
use oxiscale.Store.File.SampleDisk.{
  Contents, disk_host, disk_IsFileSystem, disk_IsCodec, data_json, empty_disk, disk-IsHealthy,
}

abbrev archive_v1 : FilePath
archive_v1 = record {
  parent = [];
  file_name = some (b'a' ∷ b'.' ∷ b'b' ∷ b'.' ∷ b'y' ∷ b'm' ∷ b'l' ∷ []);
}

formats : (from_path data_json ≡ some json) × (from_path archive_v1 ≡ some yaml)
unfolding from_path extension split_last_dot
formats = (refl, refl)

temporary_name :
    with_extension archive_v1 tmp_extension
    ≡ record { parent = []; file_name = some (b'a' ∷ b'.' ∷ b'b' ∷ b'.' ∷ b't' ∷ b'm' ∷ b'p' ∷ []) }
unfolding with_extension split_last_dot
temporary_name = refl

abbrev fresh : FileStore
fresh = record { path = data_json; format = json; memory = Memory.new }

open_missing_file : open_store (disk_host false) data_json empty_disk ≡ ok fresh
unfolding open_store load from_path extension split_last_dot
open_missing_file = refl

abbrev script : List (Call ℕ)
script =
    upsert_node sensor
    ∷ upsert_preauth_key (sample_key 1 false none)
    ∷ consume_preauth_key today 1
    ∷ []

abbrev after_script : FileStore × Contents
after_script = elim (run (disk_host false) calendar script fresh empty_disk) [
  | ok q ↦ q
  | err e ↦ (fresh, empty_disk)
]

script_runs : run (disk_host false) calendar script fresh empty_disk ≡ ok after_script
unfolding run Trace.perform Methods.upsert_node Methods.upsert_preauth_key
    Methods.consume_preauth_key flush serialize Memory.upsert_node Memory.upsert_preauth_key
    Memory.consume_preauth_key Memory.new preauth_key_expired find write_first upsert with_extension
    split_last_dot Memory.snapshot
script_runs = refl

restart-Loads_example :
    (after_script.0.memory ≡ MemoryTrace.run calendar script Memory.new)
    × Loads (disk_host false) calendar data_json after_script.1 after_script.0.memory.inner
restart-Loads_example =
    restart-Loads (disk_host false) calendar (disk_IsFileSystem false) (disk_IsCodec false)
      data_json script fresh after_script.0 empty_disk after_script.1 open_missing_file script_runs

fresh-IsOpened : IsOpened (disk_host true) fresh
unfolding from_path extension split_last_dot
fresh-IsOpened = refl

full_disk_fails :
    (Trace.perform (disk_host true) calendar (upsert_node sensor) fresh empty_disk).0
    ≡ err (io (other_kind 28))
unfolding Trace.perform Methods.upsert_node flush serialize Memory.upsert_node Memory.snapshot
full_disk_fails = refl

failed_call_example :
    (open_store
        (disk_host true)
        data_json
        (Trace.perform (disk_host true) calendar (upsert_node sensor) fresh empty_disk).2
      ≡ open_store (disk_host true) data_json empty_disk)
    × ((Trace.perform (disk_host true) calendar (upsert_node sensor) fresh empty_disk).1.memory
        ≡ (MemoryTrace.perform calendar (upsert_node sensor) Memory.new).1)
failed_call_example =
    failed_call (disk_host true) calendar (disk_IsFileSystem true) (disk_IsCodec true)
      (upsert_node sensor) fresh empty_disk (io (other_kind 28)) fresh-IsOpened full_disk_fails

perform-Ends_example : Ends (disk_host true) calendar (upsert_node sensor) fresh empty_disk
perform-Ends_example = perform-Ends (disk_host true) calendar (upsert_node sensor) fresh empty_disk

flush-Flushed_example :
    Flushed
      (disk_host true)
      (disk_IsFileSystem true)
      fresh
      empty_disk
      (flush (disk_host true) fresh empty_disk)
flush-Flushed_example =
    flush-Flushed (disk_host true) (disk_IsFileSystem true) fresh empty_disk fresh-IsOpened

abbrev pub holding : FileStore
holding = record fresh { memory = with_key (sample_key 1 false none) }

holding_fails :
    (Trace.perform (disk_host true) calendar (consume_preauth_key today 1) holding empty_disk).0
    ≡ err (io (other_kind 28))
unfolding Trace.perform Methods.consume_preauth_key flush serialize Memory.consume_preauth_key
    Memory.snapshot preauth_key_expired find write_first
holding_fails = refl

abbrev failed_once : FileStore
failed_once =
    (Trace.perform (disk_host true) calendar (consume_preauth_key today 1) holding empty_disk).1

consume_lost_example :
    ((Trace.perform
        (disk_host true)
        calendar
        (consume_preauth_key today 1)
        failed_once
        empty_disk).0
      ≡ ok (Reply.consumed false))
    × ((Trace.perform
          (disk_host true)
          calendar
          (consume_preauth_key today 1)
          failed_once
          empty_disk).2
        ≡ empty_disk)
unfolding find preauth_key_expired
consume_lost_example =
    consume_lost (disk_host true) calendar (disk_IsFileSystem true) (disk_IsCodec true) today today
      1 holding empty_disk empty_disk (sample_key 1 false none) (io (other_kind 28)) fresh-IsOpened
      refl refl refl holding_fails

script_serializes :
    Serializable (disk_host false) calendar (disk_IsFileSystem false) json script Memory.new
unfolding serialize
script_serializes = ((_, refl), ((_, refl), ((_, refl), tt)))

run_completes_example :
    (s' : FileStore) × (d : Contents) × (run (disk_host false) calendar script fresh empty_disk
      ≡ ok (s', d))
    × (s'.memory ≡ MemoryTrace.run calendar script Memory.new)
run_completes_example =
    run_completes (disk_host false) calendar (disk_IsFileSystem false) script fresh empty_disk
      disk-IsHealthy script_serializes
