-- ===== src/Store/File/History/Tests.antt =====
-- Restarts of the file store on a concrete disk, and the theorems of `Store.File.History` and
-- `Store.File.Sessions` at concrete inputs.
use oxiscale.Prelude.{ℕ, ◌≤◌, ◌≡◌, refl, false, none, some, List, [], ◌∷◌, ok}
use oxiscale.Store.FilePath.{extension, split_last_dot}
use oxiscale.Store.Calls.{Call, upsert_node, upsert_preauth_key, consume_preauth_key, get_node}
use oxiscale.Store.Spec.{nothing, advance_all}
use oxiscale.Store.Table.{find}
use oxiscale.Store.Memory
use oxiscale.Store.Samples.{calendar, today, sample_key, with_key, sensor}
use oxiscale.Store.File.{FileStore, json, from_path, open_store, load, deserialize}
use oxiscale.Store.File.Trace.{perform}
use oxiscale.Store.File.SampleDisk.{
  Contents, put, disk_host, disk_IsFileSystem, disk_IsCodec, data_json, empty_disk,
}
use oxiscale.Store.File.History.{history, IsAnswered, history_refines}
use oxiscale.Store.File.Sessions.{sessions_wins, sessions-single_use}

opened : from_path data_json ≡ some json
unfolding from_path extension split_last_dot
opened = refl

abbrev two_sessions : List (List (Call ℕ))
two_sessions =
    (upsert_node sensor ∷ [])
    ∷ (upsert_preauth_key (sample_key 1 false none) ∷ consume_preauth_key today 1 ∷ [])
    ∷ []

history_refines_example :
    (s : FileStore) × (open_store
        (disk_host false)
        data_json
        (history (disk_host false) calendar data_json two_sessions empty_disk).1
      ≡ ok s)
    × IsAnswered
        (disk_host false)
        calendar
        (get_node 7)
        (advance_all calendar
          (history (disk_host false) calendar data_json two_sessions empty_disk).0
          nothing)
        (perform
          (disk_host false)
          calendar
          (get_node 7)
          s
          (history (disk_host false) calendar data_json two_sessions empty_disk).1).0
history_refines_example =
    history_refines (disk_host false) calendar (disk_IsFileSystem false) (disk_IsCodec false)
      data_json two_sessions (get_node 7) empty_disk opened refl

abbrev keyed : Contents
keyed = put data_json (some (with_key (sample_key 1 false none)).inner) empty_disk

abbrev keyed_store : FileStore
keyed_store = record {
  path = data_json;
  format = json;
  memory = with_key (sample_key 1 false none);
}

keyed_opens : open_store (disk_host false) data_json keyed ≡ ok keyed_store
unfolding open_store load deserialize from_path extension split_last_dot Memory.replace
keyed_opens = refl

abbrev tries : List (List (Call ℕ))
tries =
    (consume_preauth_key today 1 ∷ consume_preauth_key today 1 ∷ [])
    ∷ (consume_preauth_key today 1 ∷ [])
    ∷ []

sessions-single_use_example : sessions_wins (disk_host false) calendar 1 data_json tries keyed ≤ 1
unfolding find
sessions-single_use_example =
    sessions-single_use (disk_host false) calendar (disk_IsFileSystem false) (disk_IsCodec false) 1
      data_json tries keyed keyed_store (sample_key 1 false none) ((tt, (tt, tt)), ((tt, tt), tt))
      keyed_opens refl refl
