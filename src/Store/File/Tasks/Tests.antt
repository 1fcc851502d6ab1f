-- ===== src/Store/File/Tasks/Tests.antt =====
-- Tasks of `Store.File.Tasks` on a concrete disk, and the theorems at concrete schedules.
use oxiscale.Prelude.{
  ℕ, ◌==◌, ◌≡◌, refl, false, if◌then◌else◌, none, some, List, [], ◌∷◌, ok, arith,
}
use oxiscale.Store.FilePath.{extension, split_last_dot}
use oxiscale.Store.Host.{Host}
use oxiscale.Store.Calls.{Call, Reply, upsert_node, upsert_preauth_key}
use oxiscale.Store.Memory
use oxiscale.Store.Memory.Trace
use oxiscale.Store.Samples.{calendar, sample_key, sensor}
use oxiscale.Store.File.{json, from_path, open_store, load, serialize}
use oxiscale.Store.File.Restart.{Loads, Agrees-refl}
use oxiscale.Store.File.SampleDisk.{
  disk_host, disk_IsFileSystem, disk_IsCreate, disk_IsCodec, disk-IsHealthy, data_json, empty_disk,
}
use oxiscale.Store.File.Tasks.{
  done, Setup, System, run, initial, turn, move, answered, settle, serialized, on_disk, created,
  wrote, renamed,
}
use oxiscale.Store.File.Tasks.Order.{Tracks, run-Tracks}
use oxiscale.Store.File.Tasks.Intact.{TakesTurns, IsIntact}
use oxiscale.Store.File.Tasks.Snapshot.{run-IsIntact}
use oxiscale.Store.File.Tasks.Crash.{LoadsPast, run-LoadsPast}
use oxiscale.Store.File.Tasks.Lost.{Writes, overtaken, overtaken_lost}

abbrev good : Host
good = disk_host false

abbrev two_calls : ℕ → Call ℕ
two_calls n = if n == 0 then upsert_node sensor else upsert_preauth_key (sample_key 1 false none)

abbrev setup : Setup good calendar
setup = record { path = data_json; format = json; calls = two_calls }

opened : from_path data_json ≡ some json
unfolding from_path extension split_last_dot
opened = refl

abbrev crossed : List ℕ
crossed = 0 ∷ 1 ∷ 1 ∷ 0 ∷ 1 ∷ 0 ∷ 1 ∷ 0 ∷ 1 ∷ 0 ∷ []

run-Tracks_example :
    Tracks good calendar setup Memory.new
      (0 ∷ 1 ∷ [])
      (run good calendar setup crossed (initial good calendar Memory.new empty_disk))
run-Tracks_example = run-Tracks good calendar setup crossed Memory.new empty_disk

-- The two tasks call and take their snapshots in turns, and then write one after the other; the second
-- stops before it renames.
abbrev in_turn : List ℕ
in_turn = 0 ∷ 1 ∷ 1 ∷ 0 ∷ 1 ∷ 1 ∷ 1 ∷ 0 ∷ 0 ∷ []

in_turn-TakesTurns :
    TakesTurns good calendar setup in_turn (initial good calendar Memory.new empty_disk)
unfolding turn move answered settle serialized on_disk created wrote renamed Trace.perform
    Memory.upsert_node Memory.upsert_preauth_key serialize
in_turn-TakesTurns = (
  λ j e f. ground arith,
  (
    λ j e f. ground arith,
    (
      λ j e f. ground arith,
      (
        λ j e f. ground arith,
        (
          λ j e f. ground arith,
          (
            λ j e f. ground arith,
            (λ j e f. ground arith, (λ j e f. ground arith, (λ j e f. ground arith, tt))),
          ),
        ),
      ),
    ),
  ),
)

run-IsIntact_example :
    IsIntact good calendar setup Memory.new empty_disk
      (0 ∷ 1 ∷ [])
      (run good calendar setup in_turn (initial good calendar Memory.new empty_disk)).disk
run-IsIntact_example =
    run-IsIntact good calendar setup Memory.new empty_disk in_turn (disk_IsFileSystem false)
      (disk_IsCreate false) opened in_turn-TakesTurns

first-Writes : Writes good calendar setup 0 Memory.new
unfolding Trace.perform Memory.upsert_node
first-Writes = record { reply = Reply.unit; replied = refl; flushing = refl }

second-Writes :
    Writes good calendar setup 1 (Trace.perform calendar (upsert_node sensor) Memory.new).1
unfolding Trace.perform Memory.upsert_preauth_key
second-Writes = record { reply = Reply.unit; replied = refl; flushing = refl }

abbrev raced : System good calendar
raced = run good calendar setup (overtaken 0 1) (initial good calendar Memory.new empty_disk)

overtaken_lost_example :
    (raced.stages 0 ≡ done (ok first-Writes.reply))
    × (raced.stages 1 ≡ done (ok second-Writes.reply))
    × (raced.memory
        ≡ (Trace.perform calendar
            (upsert_preauth_key (sample_key 1 false none))
            (Trace.perform calendar (upsert_node sensor) Memory.new).1).1)
    × Loads good calendar data_json raced.disk
        (Trace.perform calendar (upsert_node sensor) Memory.new).1.inner
unfolding serialize
overtaken_lost_example =
    overtaken_lost good calendar setup 0 1 Memory.new empty_disk (disk_IsFileSystem false)
      (disk_IsCodec false) (disk_IsCreate false) disk-IsHealthy opened refl (_, refl) (_, refl)
      first-Writes second-Writes

missing-Loads : Loads good calendar data_json empty_disk Memory.new.inner
unfolding from_path extension split_last_dot open_store load Memory.new
missing-Loads = (_, refl, Agrees-refl Memory.new.inner)

run-LoadsPast_example :
    LoadsPast good calendar setup
      (0 ∷ 1 ∷ [])
      Memory.new
      (run good calendar setup in_turn (initial good calendar Memory.new empty_disk)).disk
run-LoadsPast_example =
    run-LoadsPast good calendar setup in_turn Memory.new empty_disk (disk_IsFileSystem false)
      (disk_IsCodec false) (disk_IsCreate false) opened missing-Loads in_turn-TakesTurns
