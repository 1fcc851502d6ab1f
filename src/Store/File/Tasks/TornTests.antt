-- ===== src/Store/File/Tasks/TornTests.antt =====
-- A disk of `Store.File.Tests` with room for a number of writes, and the theorems on it.
use oxiscale.Prelude.{
  ℕ, zero, suc, String, false, ◌==◌, ◌≡◌, ◌≢◌, refl, sym, ap, ◌∙◌, if◌then◌else◌, none, some,
  Result, ok, err,
}
use oxiscale.Store.Types.{IoError, other_kind, serde, io}
use oxiscale.Store.Document.{StoreDocument}
use oxiscale.Store.FilePath.{FilePath, with_extension, extension, split_last_dot}
use oxiscale.Store.Host.{Host, IsFileSystem, IsCreate}
use oxiscale.Store.Calls.{Call, Reply, upsert_node, upsert_preauth_key}
use oxiscale.Store.Memory
use oxiscale.Store.Memory.Trace
use oxiscale.Store.Samples.{calendar, sample_key, sensor}
use oxiscale.Store.File.{tmp_extension, json, from_path, open_store, serialize, deserialize}
use oxiscale.Store.File.SampleDisk.{
  Contents, put, found, move, put_self, put_ne, put_twice, move_moves, move_fails, data_json,
  empty_disk,
}
use oxiscale.Store.File.Tasks.{done, Setup, System, run, initial}
use oxiscale.Store.File.Tasks.Lost.{Writes, called}
use oxiscale.Store.File.Tasks.Halfway
use oxiscale.Store.File.Tasks.Halfway.{HalfWritten, emptied_halfway}
use oxiscale.Store.File.Tasks.Torn.{PartLeft, crossing, crossing_torn}

-- What is left of a document that was not written to its end.
abbrev part : StoreDocument
part = record Memory.new.inner { version = 0 }

abbrev parse : StoreDocument → Result String StoreDocument
parse doc = if doc.version == 0 then err "unexpected end" else ok doc

abbrev write_some :
    FilePath → StoreDocument → Contents → ℕ → Result IoError (Unit {0}) × (Contents × ℕ)
write_some p b d zero = (err (other_kind 28), (put p (some part) d, 0))
write_some p b d (suc room) = (ok tt, (put p (some b) d, room))

abbrev with_room :
    ℕ → Result IoError (Unit {0}) × Contents → Result IoError (Unit {0}) × (Contents × ℕ)
with_room room (r, d) = (r, (d, room))

abbrev small : Host
small = record {
  Bytes = StoreDocument;
  Text = StoreDocument;
  Disk = Contents × ℕ;
  read = λ p d. found (d.0 p);
  write = λ p b d. write_some p b d.0 d.1;
  rename = λ p q d. with_room d.1 (move p q (found (d.0 p)) d.0);
  File = FilePath;
  empty = part;
  create = λ p d. (ok p, (put p (some part) d.0, d.1));
  write_all = λ p b d. write_some p b d.0 d.1;
  into_bytes = λ t. t;
  from_utf8 = λ b. ok b;
  json_to_vec_pretty = λ doc. ok doc;
  json_from_slice = parse;
  yaml_to_string = λ doc. ok doc;
  yaml_from_slice = parse;
  toml_to_string_pretty = λ doc. ok doc;
  toml_from_str = parse;
}

some-read :
    (p : FilePath) (b : StoreDocument) (d : Contents) (room : ℕ) (d' : Contents × ℕ)
    → write_some p b d room ≡ (ok tt, d')
    → found (d'.0 p) ≡ ok b
some-read p b d zero d' e = cc (ap (λ q. q.0) e)
some-read p b d (suc room) d' e =
    sym (ap (λ q. found (q.1.0 p)) e) ∙ ap found (put_self p (some b) d)

some-other :
    (p q : FilePath) (b : StoreDocument) (d : Contents) (room : ℕ)
    → p ≢ q
    → found ((write_some p b d room).1.0 q) ≡ found (d q)
some-other p q b d zero apart = ap found (put_ne p q (some part) d apart)
some-other p q b d (suc room) apart = ap found (put_ne p q (some b) d apart)

small_IsFileSystem : IsFileSystem small
small_IsFileSystem = record {
  write_read = λ p b d d' e. some-read p b d.0 d.1 d' e;
  write_other = λ p q b d apart. some-other p q b d.0 d.1 apart;
  rename_moves =
      λ p q d d' e. move_moves p q d.0 d'.0 (found (d.0 p)) refl (ap (λ z. (z.0, z.1.0)) e);
  rename_fails =
      λ p q r x d d' e. move_fails p q r x d.0 d'.0 (found (d.0 p)) (ap (λ z. (z.0, z.1.0)) e);
}

write_some-put :
    (p : FilePath) (b : StoreDocument) (d : Contents) (room : ℕ)
    → write_some p b d room ≡ write_some p b (put p (some part) d) room
write_some-put p b d zero =
    ap (λ z. (err (other_kind 28), (z, 0))) (sym (put_twice p (some part) (some part) d))
write_some-put p b d (suc room) =
    ap (λ z. (ok tt, (z, room))) (sym (put_twice p (some b) (some part) d))

small_IsCreate : IsCreate small
small_IsCreate = record {
  write_is = λ p b d. write_some-put p b d.0 d.1;
  truncates =
      λ p f d d' e. sym (ap (λ q. found (q.1.0 p)) e) ∙ ap found (put_self p (some part) d.0);
  create_other = λ p q d apart. ap found (put_ne p q (some part) d.0 apart);
}

abbrev two_calls : ℕ → Call ℕ
two_calls n = if n == 0 then upsert_node sensor else upsert_preauth_key (sample_key 1 false none)

abbrev setup : Setup small calendar
setup = record { path = data_json; format = json; calls = two_calls }

abbrev room_for_one : Contents × ℕ
room_for_one = (empty_disk, 1)

first-Writes : Writes small calendar setup 0 Memory.new
unfolding Trace.perform Memory.upsert_node
first-Writes = record { reply = Reply.unit; replied = refl; flushing = refl }

second-Writes : Writes small calendar setup 1 (called small calendar setup 0 Memory.new)
unfolding Trace.perform Memory.upsert_preauth_key
second-Writes = record { reply = Reply.unit; replied = refl; flushing = refl }

abbrev tmp : FilePath
tmp = with_extension data_json tmp_extension

abbrev one_written : Contents
one_written = put tmp (some (called small calendar setup 0 Memory.new).inner) empty_disk

abbrev both_written : Contents
both_written = put tmp (some part) one_written

left_there : found (both_written tmp) ≡ ok part
left_there = ap found (put_self tmp (some part) one_written)

moved_there :
    with_room 0 (move tmp data_json (found (both_written tmp)) both_written)
    ≡ (ok tt, (put data_json (some part) (put tmp none both_written), 0))
moved_there = ap (λ r. with_room 0 (move tmp data_json r both_written)) left_there

unfoldable second_part :
    PartLeft small calendar setup
      (called small calendar setup 0 Memory.new).inner
      (called small calendar setup 1 (called small calendar setup 0 Memory.new)).inner
      room_for_one
unfolding serialize
second_part = record {
  bytes1 = (called small calendar setup 0 Memory.new).inner;
  serialized1 = refl;
  disk1 = (one_written, 0);
  written1 = refl;
  bytes2 = (called small calendar setup 1 (called small calendar setup 0 Memory.new)).inner;
  serialized2 = refl;
  error = other_kind 28;
  disk2 = (both_written, 0);
  failed = refl;
  part = part;
  left = left_there;
  disk3 = (put data_json (some part) (put tmp none both_written), 0);
  moved = moved_there;
}

opened : from_path data_json ≡ some json
unfolding from_path extension split_last_dot
opened = refl

abbrev torn : System small calendar
torn = run small calendar setup (crossing 0 1) (initial small calendar Memory.new room_for_one)

unreadable : deserialize small json part ≡ err (serde "unexpected end")
unfolding deserialize
unreadable = refl

crossing_torn_example :
    (torn.stages 0 ≡ done (ok first-Writes.reply))
    × (torn.stages 1 ≡ done (err (io second_part.error)))
    × (small.read data_json torn.disk ≡ ok second_part.part)
    × (open_store small data_json torn.disk ≡ err (serde "unexpected end"))
unfolding second_part
crossing_torn_example =
    crossing_torn small calendar setup 0 1 Memory.new room_for_one (serde "unexpected end")
      small_IsFileSystem small_IsCreate opened refl first-Writes second-Writes second_part
      unreadable

abbrev second_written : Contents
second_written =
    put tmp (some (called small calendar setup 1 (called small calendar setup 0 Memory.new)).inner)
      empty_disk

abbrev second_emptied : Contents
second_emptied = put tmp (some part) second_written

emptied_moved :
    with_room 0 (move tmp data_json (found (second_emptied tmp)) second_emptied)
    ≡ (ok tt, (put data_json (some part) (put tmp none second_emptied), 0))
emptied_moved =
    ap (λ r. with_room 0 (move tmp data_json r second_emptied))
      (ap found (put_self tmp (some part) second_written))

second_begun :
    HalfWritten small calendar setup
      (called small calendar setup 0 Memory.new).inner
      (called small calendar setup 1 (called small calendar setup 0 Memory.new)).inner
      room_for_one
unfolding serialize
second_begun = record {
  first_bytes = (called small calendar setup 0 Memory.new).inner;
  first_serialized_as = refl;
  bytes = (called small calendar setup 1 (called small calendar setup 0 Memory.new)).inner;
  serialized_as = refl;
  disk1 = (second_written, 0);
  written_to = refl;
  file = tmp;
  disk2 = (second_emptied, 0);
  created = refl;
  disk3 = (put data_json (some part) (put tmp none second_emptied), 0);
  moved = emptied_moved;
}

abbrev emptied : System small calendar
emptied =
    run small calendar setup (Halfway.halfway 0 1) (initial small calendar Memory.new room_for_one)

emptied_halfway_example :
    (emptied.stages 1 ≡ done (ok second-Writes.reply))
    × (small.read data_json emptied.disk ≡ ok part)
    × (open_store small data_json emptied.disk ≡ err (serde "unexpected end"))
emptied_halfway_example =
    emptied_halfway small calendar setup 0 1 Memory.new room_for_one (serde "unexpected end")
      small_IsFileSystem small_IsCreate opened refl first-Writes second-Writes second_begun
      unreadable
