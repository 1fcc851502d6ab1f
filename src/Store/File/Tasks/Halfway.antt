-- ===== src/Store/File/Tasks/Halfway.antt =====
-- An interleaving of two tasks of `Store.File.Tasks` in which one renames the temporary file that the
-- other has begun to write anew. `std::fs::write` creates the file, which empties one that is there,
-- and then writes to it.
use oxiscale.Prelude.{ℕ, ◌==◌, ◌≡◌, refl, ◌∙◌, false, some, List, [], ◌∷◌, ok, err, arith}
use oxiscale.Store.Types.{StoreError}
use oxiscale.Store.Chrono.{Chrono}
use oxiscale.Store.Document.{StoreDocument}
use oxiscale.Store.FilePath.{with_extension}
use oxiscale.Store.Host.{Host, IsFileSystem, IsCreate}
use oxiscale.Store.Memory.{MemoryStore}
use oxiscale.Store.File.{from_path, serialize, deserialize, tmp_extension, open_store}
use oxiscale.Store.File.Tasks.{
  start, changed, taken, writing, written, done, Setup, System, stage_at, turn, run, initial, move,
  serialized, on_disk, created, wrote, renamed,
}
use oxiscale.Store.File.Tasks.Alone.{turn_is, taken-WroteAs}
use oxiscale.Store.File.Tasks.Lost.{Writes, called, takes}
use oxiscale.Store.File.Tasks.Moves.{self}
use oxiscale.Store.File.Tasks.Torn.{open_store_unreadable}

-- The schedule: both tasks take their snapshots, task `j` writes its own, task `i` creates the file anew,
-- task `j` renames it.
abbrev pub halfway : ℕ → ℕ → List ℕ
halfway i j = i ∷ i ∷ j ∷ j ∷ j ∷ j ∷ i ∷ j ∷ []

module _ (h : Host) (c : Chrono) (setup : Setup h c) where
  open h use {Bytes, File, Disk, read, write, create, rename, empty}
  open setup use {path, format}

  -- None of the calls to the system fails.
  pub record HalfWritten (first second : StoreDocument) (disk : Disk) : Type 0 where
    pub first_bytes : Bytes
    pub first_serialized_as : serialize h format first ≡ ok first_bytes
    pub bytes : Bytes
    pub serialized_as : serialize h format second ≡ ok bytes
    pub disk1 : Disk
    pub written_to : write (with_extension path tmp_extension) bytes disk ≡ (ok tt, disk1)
    pub file : File
    pub disk2 : Disk
    pub created : create (with_extension path tmp_extension) disk1 ≡ (ok file, disk2)
    pub disk3 : Disk
    pub moved : rename (with_extension path tmp_extension) path disk2 ≡ (ok tt, disk3)

  -- Where no call to the system fails: if a task has begun its write when another, which has written its
  -- snapshot, renames, the other succeeds and leaves an empty file at the path, and if nothing more is
  -- written, the store does not open again, where an empty file does not parse.
  pub emptied_halfway :
      (i j : ℕ) (memory : MemoryStore) (disk : Disk) (x : StoreError)
      → IsFileSystem h
      → IsCreate h
      → from_path path ≡ some format
      → (i == j) ≡ false
      → (wi : Writes h c setup i memory) (wj : Writes h c setup j (called h c setup i memory))
        (b : HalfWritten
          (called h c setup i memory).inner
          (called h c setup j (called h c setup i memory)).inner
          disk)
      → deserialize h format empty ≡ err x
      → let s = run h c setup (halfway i j) (initial h c memory disk) in
        (s.stages j ≡ done (ok wj.reply))
        × (read path s.disk ≡ ok empty)
        × (open_store h path s.disk ≡ err x)
  unfolding run move serialized on_disk created wrote renamed
  emptied_halfway i j memory disk x fs laws opened apart wi wj b unreadable =
      let m1 = called h c setup i memory in
      let m2 = called h c setup j m1 in
      let s2 : System h c = record {
        memory = m1;
        disk = disk;
        stages =
            stage_at h c i (taken wi.reply m1.inner)
              (stage_at h c i (changed wi.reply) (λ _. start));
      } in
      let stages3 = stage_at h c j (changed wj.reply) s2.stages in
      let s4 : System h c = record {
        memory = m2;
        disk = disk;
        stages = stage_at h c j (taken wj.reply m2.inner) stages3;
      } in
      let (stages6, others6, to6) =
        taken-WroteAs h c setup j wj.reply m2.inner b.bytes s4 (ok tt, b.disk1) laws
          (self h c setup j _ stages3) b.serialized_as b.written_to in
      let s6 : System h c = record {
        memory = m2;
        disk = b.disk1;
        stages = stage_at h c j (written wj.reply) stages6;
      } in
      let apart' : (j == i) ≡ false = ground (arith, apart) in
      let waiting : s6.stages i ≡ taken wi.reply m1.inner = rw apart' (
        others6 i apart'
        ∙ rw apart' (self h c setup i _ (stage_at h c i (changed wi.reply) (λ _. start)))) in
      let s7 : System h c = record {
        memory = m2;
        disk = b.disk2;
        stages = stage_at h c i (writing wi.reply b.first_bytes b.file) s6.stages;
      } in
      let to7 : turn h c setup i s6 ≡ s7 =
        turn_is h c setup i (taken wi.reply m1.inner) s6 waiting
        ∙ rw (b.first_serialized_as, b.created) in
      let to8 : turn h c setup j s7 ≡ record {
        memory = m2;
        disk = b.disk3;
        stages = stage_at h c j (done (ok wj.reply)) s7.stages;
      } =
        turn_is h c setup j (written wj.reply) s7 (rw apart (self h c setup j _ stages6))
        ∙ rw b.moved in
      let ended : read path b.disk3 ≡ ok empty =
        fs.rename_moves _ path _ b.disk3 b.moved ∙ laws.truncates _ b.file _ b.disk2 b.created in
      rw
        (
          takes h c setup i (initial h c memory disk) wi refl,
          takes h c setup j s2 wj (rw apart refl),
          to6,
          to7,
          to8,
        )
        (
          self h c setup j _ s7.stages,
          ended,
          open_store_unreadable h c setup b.disk3 empty x opened ended unreadable,
        )
