-- ===== src/Store/File/Tasks/Torn.antt =====
-- An interleaving of two tasks of `Store.File.Tasks` in which one renames what the other has left of a
-- write that failed.
use oxiscale.Prelude.{ℕ, ◌==◌, ◌≡◌, refl, ◌∙◌, false, some, List, [], ◌∷◌, ok, err, arith}
use oxiscale.Store.Types.{StoreError, IoError, io}
use oxiscale.Store.Chrono.{Chrono}
use oxiscale.Store.Document.{StoreDocument}
use oxiscale.Store.FilePath.{with_extension}
use oxiscale.Store.Host.{Host, IsFileSystem, IsCreate}
use oxiscale.Store.Memory.{MemoryStore}
use oxiscale.Store.File.{
  from_path, serialize, deserialize, tmp_extension, open_store, open_with, load, loaded, load_read,
  load_document,
}
use oxiscale.Store.File.Tasks.{
  Stage, start, changed, taken, written, done, Setup, System, stage_at, turn, run, initial, move,
  on_disk, wrote, renamed,
}
use oxiscale.Store.File.Tasks.Alone.{turn_is, taken-WroteAs}
use oxiscale.Store.File.Tasks.Lost.{Writes, called, takes}
use oxiscale.Store.File.Tasks.Moves.{self}

-- The schedule: task `i` writes, task `j` fails to, task `i` renames.
abbrev pub crossing : ℕ → ℕ → List ℕ
crossing i j = i ∷ i ∷ i ∷ i ∷ j ∷ j ∷ j ∷ j ∷ i ∷ []

module _ (h : Host) (c : Chrono) (setup : Setup h c) where
  open h use {Bytes, Disk, read, write, rename}
  open setup use {path, format}

  -- The second of two writes to the temporary file fails and leaves a part there, and a rename of it
  -- succeeds.
  pub record PartLeft (first second : StoreDocument) (disk : Disk) : Type 0 where
    pub bytes1 : Bytes
    pub serialized1 : serialize h format first ≡ ok bytes1
    pub disk1 : Disk
    pub written1 : write (with_extension path tmp_extension) bytes1 disk ≡ (ok tt, disk1)
    pub bytes2 : Bytes
    pub serialized2 : serialize h format second ≡ ok bytes2
    pub error : IoError
    pub disk2 : Disk
    pub failed : write (with_extension path tmp_extension) bytes2 disk1 ≡ (err error, disk2)
    pub part : Bytes
    pub left : read (with_extension path tmp_extension) disk2 ≡ ok part
    pub disk3 : Disk
    pub moved : rename (with_extension path tmp_extension) path disk2 ≡ (ok tt, disk3)

  other :
      (i j : ℕ) (stage : Stage h) (stages : ℕ → Stage h)
      → (i == j) ≡ false
      → stage_at h c i stage stages j ≡ stages j
  other i j stage stages apart = rw apart

  -- A store whose file does not parse cannot be opened.
  pub open_store_unreadable :
      (disk : Disk) (part : Bytes) (x : StoreError)
      → from_path path ≡ some format
      → read path disk ≡ ok part
      → deserialize h format part ≡ err x
      → open_store h path disk ≡ err x
  unfolding open_store load
  open_store_unreadable disk part x opened holds unreadable =
      rw (opened, open_with, load, holds, load_read, unreadable, load_document, loaded)

  -- Where a task has written its snapshot and, before it renames, another fails to write its own and
  -- leaves a part of it that does not parse: the first succeeds, its rename puts the part at the path,
  -- and the store cannot be opened again.
  pub crossing_torn :
      (i j : ℕ) (memory : MemoryStore) (disk : Disk) (x : StoreError)
      → IsFileSystem h
      → IsCreate h
      → from_path path ≡ some format
      → (i == j) ≡ false
      → (wi : Writes h c setup i memory) (wj : Writes h c setup j (called h c setup i memory))
        (p : PartLeft
          (called h c setup i memory).inner
          (called h c setup j (called h c setup i memory)).inner
          disk)
      → deserialize h format p.part ≡ err x
      → let s = run h c setup (crossing i j) (initial h c memory disk) in
        (s.stages i ≡ done (ok wi.reply))
        × (s.stages j ≡ done (err (io p.error)))
        × (read path s.disk ≡ ok p.part)
        × (open_store h path s.disk ≡ err x)
  unfolding run move on_disk wrote renamed
  crossing_torn i j memory disk x fs files opened apart wi wj p unreadable =
      let m1 = called h c setup i memory in
      let m2 = called h c setup j m1 in
      let before = stage_at h c i (changed wi.reply) (λ _. start) in
      let s2 : System h c = record {
        memory = m1;
        disk = disk;
        stages = stage_at h c i (taken wi.reply m1.inner) before;
      } in
      let (stages4, others4, to4) =
        taken-WroteAs h c setup i wi.reply m1.inner p.bytes1 s2 (ok tt, p.disk1) files
          (self h c setup i _ before) p.serialized1 p.written1 in
      let s4 : System h c = record {
        memory = m1;
        disk = p.disk1;
        stages = stage_at h c i (written wi.reply) stages4;
      } in
      let stages5 = stage_at h c j (changed wj.reply) s4.stages in
      let s6 : System h c = record {
        memory = m2;
        disk = p.disk1;
        stages = stage_at h c j (taken wj.reply m2.inner) stages5;
      } in
      let (stages8, others8, to8) =
        taken-WroteAs h c setup j wj.reply m2.inner p.bytes2 s6 (err p.error, p.disk2) files
          (self h c setup j _ stages5) p.serialized2 p.failed in
      let s8 : System h c = record {
        memory = m2;
        disk = p.disk2;
        stages = stage_at h c j (done (err (io p.error))) stages8;
      } in
      let apart' : (j == i) ≡ false = ground (arith, apart) in
      let waiting : s8.stages i ≡ written wi.reply =
        rw apart' (others8 i apart' ∙ rw apart' (self h c setup i _ stages4)) in
      let to9 : turn h c setup i s8 ≡ record {
        memory = m2;
        disk = p.disk3;
        stages = stage_at h c i (done (ok wi.reply)) s8.stages;
      } =
        turn_is h c setup i (written wi.reply) s8 waiting ∙ rw p.moved in
      let ended : read path p.disk3 ≡ ok p.part =
        fs.rename_moves _ path _ p.disk3 p.moved ∙ p.left in
      rw
        (
          takes h c setup i (initial h c memory disk) wi refl,
          to4,
          takes h c setup j s4 wj (rw apart (others4 j apart ∙ rw apart)),
          to8,
          to9,
        )
        (
          self h c setup i _ s8.stages,
          other i j (done (ok wi.reply)) s8.stages apart ∙ self h c setup j _ stages8,
          ended,
          open_store_unreadable p.disk3 p.part x opened ended unreadable,
        )
