-- ===== src/Store/File/Lost.antt =====
-- A failed flush in `consume_preauth_key` of crates/control-core/src/store/file.rs.
use oxiscale.Prelude.{◌≡◌, refl, ap, ◌∙◌, true, false, some, ok, err, arith}
use oxiscale.Store.Types.{StoreError, PreAuthKeyId, PreAuthKey}
use oxiscale.Store.Chrono.{Chrono}
use oxiscale.Store.Calls.{Call, Reply, consume_preauth_key}
use oxiscale.Store.Host.{Host, IsFileSystem, IsCodec}
use oxiscale.Store.Memory
use oxiscale.Store.Memory.Trace
use oxiscale.Store.Memory.Consume.{key_of, accepts, after_consume, consume_answer}
use oxiscale.Store.Memory.Expiry.{own_consume}
use oxiscale.Store.File.{FileStore}
use oxiscale.Store.File.Methods
use oxiscale.Store.File.Methods.{flush_if_consumed}
use oxiscale.Store.File.Trace.{perform}
use oxiscale.Store.File.Restart.{IsOpened, failed_call}

module _ (h : Host) (c : Chrono) (fs : IsFileSystem h) (codec : IsCodec h) where
  open h use {Disk}
  open c use {DateTime}

  refused :
      (later : DateTime) (id : PreAuthKeyId) (s : FileStore) (d : Disk)
      → (Memory.consume_preauth_key c later id s.memory).0 ≡ ok false
      → ((perform h c (consume_preauth_key later id) s d).0 ≡ ok (Reply.consumed false))
        × ((perform h c (consume_preauth_key later id) s d).2 ≡ d)
  unfolding perform Methods.consume_preauth_key
  refused later id s d e = rw (Methods.consume_preauth_key, e, flush_if_consumed) (refl, refl)

  -- A valid single-use key of an opened store whose consumption fails with an error is refused, without
  -- a write, to whoever tries it next on the same store, at any time and on any disk.
  pub consume_lost :
      (now later : DateTime) (id : PreAuthKeyId) (s : FileStore) (d later_disk : Disk)
      (key : PreAuthKey) (e : StoreError)
      → IsOpened h s
      → key_of id s.memory ≡ some key
      → key.reusable ≡ false
      → accepts c now key ≡ true
      → (perform h c (consume_preauth_key now id) s d).0 ≡ err e
      → let s' = (perform h c (consume_preauth_key now id) s d).1 in
        ((perform h c (consume_preauth_key later id) s' later_disk).0 ≡ ok (Reply.consumed false))
        × ((perform h c (consume_preauth_key later id) s' later_disk).2 ≡ later_disk)
  unfolding Trace.perform
  consume_lost now later id s d later_disk key e opened stored single valid failed =
      let call : Call DateTime = consume_preauth_key now id in
      let (kept, memory) = failed_call h c fs codec call s d e opened failed in
      let used_up : key_of id (perform h c call s d).1.memory ≡ some (after_consume c now key) =
        ap (key_of id) memory ∙ (own_consume c id now s.memory stored).0 in
      refused later id (perform h c call s d).1 later_disk
        (consume_answer c later id _ used_up ∙ ground (arith, single, valid))
