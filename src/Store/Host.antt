-- ===== src/Store/Host.antt =====
-- What crates/control-core/src/store/file.rs takes from outside: `std::fs` and the crates
-- `serde_json`, `serde_yaml` and `toml`. The operations are one record, what they are documented to
-- do is another, and both are parameters of the file store.
use oxiscale.Prelude.{◌≡◌, ◌≢◌, String, Result, ok, err}
use oxiscale.Store.Types.{NetworkId, IoError}
use oxiscale.Store.Document.{StoreDocument, get}
use oxiscale.Store.FilePath.{FilePath}

pub record Host : Type 1 where
  pub Bytes : Type 0
  pub Text : Type 0
  -- the contents of the file system
  pub Disk : Type 0
  -- `std::fs::read`, `write` and `rename`
  pub read : FilePath → Disk → Result IoError Bytes
  pub write : FilePath → Bytes → Disk → Result IoError (Unit {0}) × Disk
  pub rename : FilePath → FilePath → Disk → Result IoError (Unit {0}) × Disk
  -- `File::create` and `write_all`, which `write` calls, and the contents of an empty file
  pub File : Type 0
  pub empty : Bytes
  pub create : FilePath → Disk → Result IoError File × Disk
  pub write_all : File → Bytes → Disk → Result IoError (Unit {0}) × Disk
  -- `String::into_bytes`, `str::from_utf8`
  pub into_bytes : Text → Bytes
  pub from_utf8 : Bytes → Result String Text
  -- the serializers, with an error as its text
  pub json_to_vec_pretty : StoreDocument → Result String Bytes
  pub json_from_slice : Bytes → Result String StoreDocument
  pub yaml_to_string : StoreDocument → Result String Text
  pub yaml_from_slice : Bytes → Result String StoreDocument
  pub toml_to_string_pretty : StoreDocument → Result String Text
  pub toml_from_str : Text → Result String StoreDocument

-- The same document, up to the order in which the policies are kept.
pub record Agrees (d e : StoreDocument) : Type 0 where
  pub version : d.version ≡ e.version
  pub networks : d.networks ≡ e.networks
  pub users : d.users ≡ e.users
  pub nodes : d.nodes ≡ e.nodes
  pub preauth_keys : d.preauth_keys ≡ e.preauth_keys
  pub policies : (network : NetworkId) → get network d.policies ≡ get network e.policies

module _ (h : Host) where
  open h use {Bytes, Text, Disk, read, write, rename, into_bytes, from_utf8}

  -- A write that succeeds is read back, and any write leaves the other paths alone. A rename that
  -- succeeds moves the contents over its target, and one that fails changes nothing.
  pub record IsFileSystem : Type 0 where
    pub write_read :
        (p : FilePath) (b : Bytes) (d d' : Disk) → write p b d ≡ (ok tt, d') → read p d' ≡ ok b
    pub write_other :
        (p q : FilePath) (b : Bytes) (d : Disk) → p ≢ q → read q (write p b d).1 ≡ read q d
    pub rename_moves :
        (p q : FilePath) (d d' : Disk) → rename p q d ≡ (ok tt, d') → read q d' ≡ read p d
    pub rename_fails :
        (p q r : FilePath) (e : IoError) (d d' : Disk)
        → rename p q d ≡ (err e, d')
        → read r d' ≡ read r d

  abbrev pub write_created : Bytes → Result IoError h.File × Disk → Result IoError (Unit {0}) × Disk
  write_created bytes (ok file, d) = h.write_all file bytes d
  write_created bytes (err e, d) = (err e, d)

  -- `write` is `create` and then `write_all`. A file that is created is empty, also where there was one
  -- before, and creating it leaves the other paths alone.
  pub record IsCreate : Type 0 where
    pub write_is :
        (p : FilePath) (b : Bytes) (d : Disk) → write p b d ≡ write_created b (h.create p d)
    pub truncates :
        (p : FilePath) (f : h.File) (d d' : Disk)
        → h.create p d ≡ (ok f, d')
        → read p d' ≡ ok h.empty
    pub create_other : (p q : FilePath) (d : Disk) → p ≢ q → read q (h.create p d).1 ≡ read q d

  -- A serializer's output is parsed to the document that it was given.
  abbrev pub Parses : Result String StoreDocument → StoreDocument → Type 0
  Parses r doc = (read_back : StoreDocument) × (r ≡ ok read_back) × Agrees read_back doc

  pub record IsCodec : Type 0 where
    pub utf8 : (t : Text) → from_utf8 (into_bytes t) ≡ ok t
    pub json :
        (doc : StoreDocument) (b : Bytes)
        → h.json_to_vec_pretty doc ≡ ok b
        → Parses (h.json_from_slice b) doc
    pub yaml :
        (doc : StoreDocument) (t : Text)
        → h.yaml_to_string doc ≡ ok t
        → Parses (h.yaml_from_slice (into_bytes t)) doc
    pub toml :
        (doc : StoreDocument) (t : Text)
        → h.toml_to_string_pretty doc ≡ ok t
        → Parses (h.toml_from_str t) doc
