-- ===== src/Store/File/SampleDisk.antt =====
-- A disk of documents for crates/control-core/src/store/file.rs.
use oxiscale.Prelude.{
  sym, ap, ◌∙◌, ◌≡◌, ◌≢◌, refl, Bool, true, false, if◌then◌else◌, Option, none, some, [], ◌∷◌,
  Result, ok, err, Bool-cases, inl, inr,
}
use oxiscale.Store.Types.{IoError, not_found, other_kind}
use oxiscale.Store.Document.{StoreDocument}
use oxiscale.Store.FilePath.{FilePath, path_eq, path_eq_refl, path_eq_sound}
use oxiscale.Store.Host.{Host, IsFileSystem, IsCreate, IsCodec}
use oxiscale.Store.Memory
use oxiscale.Store.Samples.{calendar}
use oxiscale.Store.File.Restart.{Agrees-refl}
use oxiscale.Store.File.Healthy.{IsHealthy}

abbrev pub Contents : Type 0
Contents = FilePath → Option StoreDocument

abbrev pub put : FilePath → Option StoreDocument → Contents → Contents
put p o d q = if path_eq p q then o else d q

abbrev pub found : Option StoreDocument → Result IoError StoreDocument
found none = err not_found
found (some doc) = ok doc

abbrev pub move :
    FilePath
    → FilePath
    → Result IoError StoreDocument
    → Contents
    → Result IoError (Unit {0}) × Contents
move p q (ok doc) d = (ok tt, put q (some doc) (put p none d))
move p q (err e) d = (err e, d)

-- A disk of documents; on a full one no rename succeeds.
abbrev pub disk_host : Bool → Host
disk_host full = record {
  Bytes = StoreDocument;
  Text = StoreDocument;
  Disk = Contents;
  read = λ p d. found (d p);
  write = λ p b d. (ok tt, put p (some b) d);
  rename = λ p q d. if full then (err (other_kind 28), d) else move p q (found (d p)) d;
  File = FilePath;
  empty = Memory.new.inner;
  create = λ p d. (ok p, put p (some Memory.new.inner) d);
  write_all = λ p b d. (ok tt, put p (some b) d);
  into_bytes = λ t. t;
  from_utf8 = λ b. ok b;
  json_to_vec_pretty = λ doc. ok doc;
  json_from_slice = λ b. ok b;
  yaml_to_string = λ doc. ok doc;
  yaml_from_slice = λ b. ok b;
  toml_to_string_pretty = λ doc. ok doc;
  toml_from_str = λ t. ok t;
}

pub put_self : (p : FilePath) (o : Option StoreDocument) (d : Contents) → put p o d p ≡ o
put_self p o d = rw (path_eq_refl p)

pub put_ne : (p q : FilePath) (o : Option StoreDocument) (d : Contents) → p ≢ q → put p o d q ≡ d q
put_ne p q o d ne = elim (Bool-cases (path_eq p q)) [
  | inl same ↦ absurd (ne (path_eq_sound p q same))
  | inr differs ↦ rw differs
]

pub put_twice :
    (p : FilePath) (o o' : Option StoreDocument) (d : Contents) → put p o (put p o' d) ≡ put p o d
put_twice p o o' d =
    let at_each : (q : FilePath) → put p o (put p o' d) q ≡ put p o d q =
      λ q. elim (Bool-cases (path_eq p q)) [ inl same ↦ rw same | inr differs ↦ rw differs ] in
    λ i q. at_each q i

pub move_moves :
    (p q : FilePath) (d d' : Contents) (r : Result IoError StoreDocument)
    → found (d p) ≡ r
    → move p q r d ≡ (ok tt, d')
    → found (d' q) ≡ found (d p)
move_moves p q d d' (ok doc) e m =
    sym (ap (λ x. found (x.1 q)) m) ∙ ap found (put_self q (some doc) (put p none d)) ∙ sym e
move_moves p q d d' (err x) e m = cc (ap (λ x. x.0) m)

pub move_fails :
    (p q r : FilePath) (x : IoError) (d d' : Contents) (s : Result IoError StoreDocument)
    → move p q s d ≡ (err x, d')
    → found (d' r) ≡ found (d r)
move_fails p q r x d d' (ok doc) m = cc (ap (λ x. x.0) m)
move_fails p q r x d d' (err y) m = sym (ap (λ x. found (x.1 r)) m)

pub disk_IsFileSystem : (full : Bool) → IsFileSystem (disk_host full)
disk_IsFileSystem true = record {
  write_read = λ p b d d' m. sym (ap (λ x. found (x.1 p)) m) ∙ ap found (put_self p (some b) d);
  write_other = λ p q b d ne. ap found (put_ne p q (some b) d ne);
  rename_moves = λ p q d d' m. cc (ap (λ x. x.0) m);
  rename_fails = λ p q r e d d' m. sym (ap (λ x. found (x.1 r)) m);
}
disk_IsFileSystem false = record {
  write_read = λ p b d d' m. sym (ap (λ x. found (x.1 p)) m) ∙ ap found (put_self p (some b) d);
  write_other = λ p q b d ne. ap found (put_ne p q (some b) d ne);
  rename_moves = λ p q d d' m. move_moves p q d d' (found (d p)) refl m;
  rename_fails = λ p q r e d d' m. move_fails p q r e d d' (found (d p)) m;
}

pub disk_IsCreate : (full : Bool) → IsCreate (disk_host full)
disk_IsCreate full = record {
  write_is = λ p b d. ap (λ z. (ok tt, z)) (sym (put_twice p (some b) (some Memory.new.inner) d));
  truncates = λ p f d d' e.
      sym (ap (λ q. found (q.1 p)) e) ∙ ap found (put_self p (some Memory.new.inner) d);
  create_other = λ p q d apart. ap found (put_ne p q (some Memory.new.inner) d apart);
}

pub disk_IsCodec : (full : Bool) → IsCodec (disk_host full)
disk_IsCodec full = record {
  utf8 = λ t. refl;
  json = λ doc b e. (doc, sym e, Agrees-refl doc);
  yaml = λ doc t e. (doc, sym e, Agrees-refl doc);
  toml = λ doc t e. (doc, sym e, Agrees-refl doc);
}

abbrev pub data_json : FilePath
data_json = record {
  parent = [];
  file_name = some (b'd' ∷ b'a' ∷ b't' ∷ b'a' ∷ b'.' ∷ b'j' ∷ b's' ∷ b'o' ∷ b'n' ∷ []);
}

abbrev pub empty_disk : Contents
empty_disk = λ _. none

found_renames :
    (p q : FilePath) (b : StoreDocument) (d : Contents)
    → found (d p) ≡ ok b
    → (move p q (found (d p)) d).0 ≡ ok tt
found_renames p q b d e = rw e

pub disk-IsHealthy : IsHealthy (disk_host false) calendar (disk_IsFileSystem false)
disk-IsHealthy = record { writes = λ p b d. refl; renames = found_renames }
