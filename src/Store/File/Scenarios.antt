-- ===== src/Store/File/Scenarios.antt =====
-- The tests of crates/control-core/src/store/file.rs as runs of the store on any disk, at the path of a
-- file that is missing. A failed `unwrap` and a failed `assert!` are `false`.
use oxiscale.Prelude.{
  ◌==◌, ◌≡◌, refl, ap, Bool, true, false, none, some, List, [], ◌∷◌, Result, ok, err,
}
use oxiscale.Store.Types.{Network, StoreError, not_found}
use oxiscale.Store.Chrono.{Chrono}
use oxiscale.Store.FilePath.{FilePath}
use oxiscale.Store.Host.{Host, IsFileSystem, IsCodec}
use oxiscale.Store.Memory
use oxiscale.Store.Table.{upsert, find}
use oxiscale.Store.File.{
  FileStore, Format, from_path, open_store, open_with, load, load_read, loaded, flush,
}
use oxiscale.Store.File.Methods
use oxiscale.Store.File.Methods.{mutate, flushed}
use oxiscale.Store.File.Restart.{flush-Loads}
use oxiscale.Store.File.Healthy.{IsHealthy, Coded, flush_ok}

abbrev pub sample_network : Network
sample_network = record {
  id = 1;
  name = "default";
  server_host = "ctl.local";
  ipv4_prefix = "100.64.0.0/10";
  ipv6_prefix = "fd7a:115c:a1e0::/48";
  noise_key_id = "k1";
  policy = none;
  created_at = "2026-06-19T00:00:00Z";
}

abbrev is_sample : Result StoreError (List Network) → Bool
is_sample (ok (n ∷ [])) = n.id == 1
is_sample _ = false

abbrev is_empty : Result StoreError (List Network) → Bool
is_empty (ok []) = true
is_empty _ = false

-- An assertion on the networks of a store that was opened.
abbrev listed : (Result StoreError (List Network) → Bool) → Result StoreError FileStore → Bool
listed test (ok store) = test (Methods.list_networks store)
listed test (err e) = false

module _ (h : Host) where
  open h use {Disk, read}

  reopened : FilePath → Result StoreError (Unit {0}) × FileStore × Disk → Bool
  reopened path (ok _, store, disk) = listed is_sample (open_store h path disk)
  reopened path (err e, store, disk) = false

  upserted : FilePath → Disk → Result StoreError FileStore → Bool
  upserted path disk (ok store) = reopened path (Methods.upsert_network h sample_network store disk)
  upserted path disk (err e) = false

  unfoldable mutations_succeed_and_persist_across_reopen : FilePath → Disk → Bool
  unfolding upserted reopened
  mutations_succeed_and_persist_across_reopen path disk =
      upserted path disk (open_store h path disk)

  unfoldable open_missing_file_is_empty_not_an_error : FilePath → Disk → Bool
  open_missing_file_is_empty_not_an_error path disk = listed is_empty (open_store h path disk)

  module _ (path : FilePath) (format : Format) (disk : Disk) (known : from_path path ≡ some format)
      (missing : read path disk ≡ err not_found) where
    abbrev fresh : FileStore
    fresh = record { path = path; format = format; memory = Memory.new }

    opens_missing : open_store h path disk ≡ ok fresh
    unfolding open_store load load_read loaded
    opens_missing = rw (known, open_with, load, missing, load_read)

    missing_passes : open_missing_file_is_empty_not_an_error path disk ≡ true
    unfolding open_missing_file_is_empty_not_an_error Methods.list_networks Memory.list_networks
        Memory.new
    missing_passes = rw opens_missing refl

    -- On a disk that does not fail, where the document serializes, what is written is there after the store is opened again.
    persist_passes :
        (c : Chrono) (fs : IsFileSystem h)
        → IsCodec h
        → IsHealthy h c fs
        → Coded h c fs format (Memory.upsert_network sample_network Memory.new).1.inner
        → mutations_succeed_and_persist_across_reopen path disk ≡ true
    unfolding mutations_succeed_and_persist_across_reopen upserted reopened Methods.upsert_network
        mutate flushed Methods.list_networks Memory.list_networks Memory.upsert_network Memory.new
        upsert find
    persist_passes c fs codec healthy coded =
        let store : FileStore = record fresh {
          memory = (Memory.upsert_network sample_network Memory.new).1;
        } in
        let written : flush h store disk ≡ (ok tt, (flush h store disk).1) =
          ap (λ q. (q, (flush h store disk).1)) (flush_ok h c fs store disk healthy coded) in
        let (s, loads, agrees) =
          flush-Loads h c fs codec store disk (flush h store disk).1 known written in
        rw (opens_missing, written, loads, agrees.networks) refl
