-- ===== src/Store/File/Flush.antt =====
-- `flush` and `load` of crates/control-core/src/store/file.rs on a file system.
use oxiscale.Prelude.{
  ◌≡◌, ◌≢◌, refl, sym, ap, ◌∙◌, some, Result, ok, err, arith, inl, inr, Option-cases, Result-cases,
  map_err, String,
}
use oxiscale.Store.Types.{StoreError, IoError, serde}
use oxiscale.Store.Document.{StoreDocument}
use oxiscale.Store.FilePath.{
  FilePath, extension, with_extension, split_last_dot, extension-with_extension,
}
use oxiscale.Store.Host.{Host, IsFileSystem, IsCodec, Agrees}
use oxiscale.Store.Memory
use oxiscale.Store.File.{
  Format, json, yaml, toml, from_path, FileStore, serialize, deserialize, toml_from_utf8, flush,
  io_step, write_snapshot, tmp_extension, open_store, open_with, load, load_read, load_document,
  loaded, text_bytes,
}

-- The path that a snapshot is written to before it is renamed.
abbrev pub tmp_path : FilePath → FilePath
tmp_path path = with_extension path tmp_extension

-- The temporary file of a path that can be opened is another file.
pub tmp_path-ne : (path : FilePath) (f : Format) → from_path path ≡ some f → tmp_path path ≢ path
unfolding from_path split_last_dot
tmp_path-ne path f e same = elim (Option-cases (extension path)) [
  | inl missing ↦ cc (rw (missing, from_path) at e)
  | inr (old, found) ↦
      let is_tmp : some old ≡ some tmp_extension =
        sym found
        ∙ ap extension (sym same)
        ∙ extension-with_extension path old tmp_extension refl found in
      ground (arith, rw (found ∙ is_tmp, from_path) at e)
]

module _ (h : Host) (fs : IsFileSystem h) where
  open h use {Bytes, Disk, read, write, rename}

  -- What a flush that was to write `bytes` has done to the snapshot at `path`.
  abbrev Written : FilePath → Bytes → Disk → Result StoreError (Unit {0}) × Disk → Type 0
  Written path bytes disk (ok _, disk') = read path disk' ≡ ok bytes
  Written path bytes disk (err e, disk') = read path disk' ≡ read path disk

  after_rename :
      (path : FilePath) (bytes : Bytes) (disk written : Disk) (q : Result IoError (Unit {0}) × Disk)
      → rename (tmp_path path) path written ≡ q
      → read (tmp_path path) written ≡ ok bytes
      → read path written ≡ read path disk
      → Written path bytes disk (io_step h q (λ d. (ok tt, d)))
  unfolding io_step
  after_rename path bytes disk written (ok u, disk') e new old =
      fs.rename_moves (tmp_path path) path written disk' e ∙ new
  after_rename path bytes disk written (err x, disk') e new old =
      fs.rename_fails (tmp_path path) path path x written disk' e ∙ old

  after_write :
      (path : FilePath) (bytes : Bytes) (disk : Disk) (q : Result IoError (Unit {0}) × Disk)
      → tmp_path path ≢ path
      → write (tmp_path path) bytes disk ≡ q
      → Written path bytes disk
          (io_step h q (λ w. io_step h (rename (tmp_path path) path w) (λ d. (ok tt, d))))
  unfolding io_step
  after_write path bytes disk (ok u, written) ne e =
      after_rename path bytes disk written (rename (tmp_path path) path written) refl
        (fs.write_read (tmp_path path) bytes disk written e)
        (rw e at (fs.write_other (tmp_path path) path bytes disk ne))
  after_write path bytes disk (err x, written) ne e =
      rw e at (fs.write_other (tmp_path path) path bytes disk ne)

  -- What a flush leaves at the path of the store: the serialized document where it succeeds, what
  -- was there before where it fails.
  abbrev pub Flushed : FileStore → Disk → Result StoreError (Unit {0}) × Disk → Type 0
  Flushed s disk (ok _, disk') =
      (bytes : Bytes) × (serialize h s.format s.memory.inner ≡ ok bytes)
      × (read s.path disk' ≡ ok bytes)
  Flushed s disk (err e, disk') = read s.path disk' ≡ read s.path disk

  Flushed-of_Written :
      (s : FileStore) (bytes : Bytes) (disk : Disk) (q : Result StoreError (Unit {0}) × Disk)
      → serialize h s.format s.memory.inner ≡ ok bytes
      → Written s.path bytes disk q
      → Flushed s disk q
  Flushed-of_Written s bytes disk (ok u, disk') e w = (bytes, e, w)
  Flushed-of_Written s bytes disk (err x, disk') e w = w

  -- A flush is all or nothing: where it succeeds the store's path holds the serialized document,
  -- and where it fails, at any step, the path holds what it held before.
  pub flush-Flushed :
      (s : FileStore) (disk : Disk) {f : Format}
      → from_path s.path ≡ some f
      → Flushed s disk (flush h s disk)
  unfolding flush write_snapshot Memory.snapshot
  flush-Flushed s disk {f} opened = elim (Result-cases (serialize h s.format s.memory.inner)) [
    | inl (bytes, e) ↦
        rw (e, flush, write_snapshot)
          (Flushed-of_Written s bytes disk _ e (
            after_write s.path bytes disk (write (tmp_path s.path) bytes disk)
              (tmp_path-ne s.path f opened) refl))
    | inr (x, e) ↦ rw (e, flush, write_snapshot) refl
  ]

module _ (h : Host) (codec : IsCodec h) where
  open h use {Bytes, Text, Disk}

  abbrev ReadsBack : Format → Bytes → StoreDocument → Type 0
  ReadsBack f bytes doc =
      (doc' : StoreDocument) × (deserialize h f bytes ≡ ok doc') × Agrees doc' doc

  json_back :
      (doc : StoreDocument) (bytes : Bytes) (r : Result String Bytes)
      → h.json_to_vec_pretty doc ≡ r
      → map_err serde r ≡ ok bytes
      → ReadsBack json bytes doc
  unfolding deserialize
  json_back doc bytes (ok b) p e =
      let same : b ≡ bytes = cc in
      let (doc', parsed, agrees) = codec.json doc b p in (doc', rw (← same, parsed), agrees)
  json_back doc bytes (err x) p e = cc

  yaml_back :
      (doc : StoreDocument) (bytes : Bytes) (r : Result String Text)
      → h.yaml_to_string doc ≡ r
      → text_bytes h r ≡ ok bytes
      → ReadsBack yaml bytes doc
  unfolding deserialize
  yaml_back doc bytes (ok t) p e =
      let same : h.into_bytes t ≡ bytes = cc in
      let (doc', parsed, agrees) = codec.yaml doc t p in (doc', rw (← same, parsed), agrees)
  yaml_back doc bytes (err x) p e = cc

  toml_back :
      (doc : StoreDocument) (bytes : Bytes) (r : Result String Text)
      → h.toml_to_string_pretty doc ≡ r
      → text_bytes h r ≡ ok bytes
      → ReadsBack toml bytes doc
  unfolding deserialize
  toml_back doc bytes (ok t) p e =
      let same : h.into_bytes t ≡ bytes = cc in
      let (doc', parsed, agrees) = codec.toml doc t p in
      (doc', rw (← same, codec.utf8 t, toml_from_utf8, parsed), agrees)
  toml_back doc bytes (err x) p e = cc

  -- What a format writes it reads back.
  pub deserialize-serialize :
      (f : Format) (doc : StoreDocument) (bytes : Bytes)
      → serialize h f doc ≡ ok bytes
      → ReadsBack f bytes doc
  unfolding serialize
  deserialize-serialize json doc bytes e = json_back doc bytes (h.json_to_vec_pretty doc) refl e
  deserialize-serialize yaml doc bytes e = yaml_back doc bytes (h.yaml_to_string doc) refl e
  deserialize-serialize toml doc bytes e = toml_back doc bytes (h.toml_to_string_pretty doc) refl e

  -- Opening a path that holds a serialized document loads that document.
  pub open_store-serialized :
      (path : FilePath) (f : Format) (doc : StoreDocument) (bytes : Bytes) (disk : Disk)
      → from_path path ≡ some f
      → serialize h f doc ≡ ok bytes
      → h.read path disk ≡ ok bytes
      → (s : FileStore) × (open_store h path disk ≡ ok s)
        × (s.path ≡ path)
        × (s.format ≡ f)
        × Agrees s.memory.inner doc
  unfolding open_store load load_read load_document loaded Memory.replace
  open_store-serialized path f doc bytes disk known written stored =
      let (doc', parsed, agrees) = deserialize-serialize f doc bytes written in
      (
        record { path = path; format = f; memory = record { inner = doc' } },
        rw (known, open_with, load, stored, load_read, parsed),
        refl,
        refl,
        agrees,
      )
