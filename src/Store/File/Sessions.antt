-- ===== src/Store/File/Sessions.antt =====
-- crates/control-core/src/store/file.rs over restarts: in each session the store is opened at its path
-- and called, and what it holds in memory is gone at the end.
use oxiscale.Prelude.{
  ℕ, ◌+◌, ◌≤◌, ◌≡◌, refl, sym, ap, ◌∙◌, subst, if◌then◌else◌, false, some, List, [], ◌∷◌, Result,
  ok, err, All, arith, inl, inr,
}
use oxiscale.Store.Types.{PreAuthKey, PreAuthKeyId, StoreError}
use oxiscale.Store.Chrono.{Chrono}
use oxiscale.Store.FilePath.{FilePath}
use oxiscale.Store.Calls.{Call, Answer, consume_preauth_key}
use oxiscale.Store.Host.{Host, IsFileSystem, IsCodec}
use oxiscale.Store.Memory.{MemoryStore}
use oxiscale.Store.Memory.Trace.{is_win}
use oxiscale.Store.Memory.Consume.{Leaves, IsSingleUse, step_SingleUse, uses_left, key_of}
use oxiscale.Store.File.{FileStore, open_store}
use oxiscale.Store.File.Trace.{perform}
use oxiscale.Store.File.Durable.{next, perform-Ends}
use oxiscale.Store.File.Restart.{IsOpened, open_store-IsOpened, open_store-read, Loads, flush-Loads}
use oxiscale.Store.File.Flush.{Flushed, flush-Flushed}

module _ (h : Host) (c : Chrono) where
  open h use {Disk}
  open c use {DateTime}

  abbrev win : PreAuthKeyId → Call DateTime → Answer → ℕ
  win id call a = if is_win c id call a then 1 else 0

  -- The calls in turn, whether they fail or not: how many were told that they had consumed the key, and
  -- what is left on the disk.
  unfoldable pub session_wins : PreAuthKeyId → List (Call DateTime) → FileStore → Disk → ℕ × Disk
  session_wins id [] s disk = (0, disk)
  session_wins id (call ∷ rest) s disk =
      let (a, s', disk') = perform h c call s disk in
      let (n, left) = session_wins id rest s' disk' in (win id call a + n, left)

  opened_wins : PreAuthKeyId → List (Call DateTime) → Disk → Result StoreError FileStore → ℕ × Disk
  opened_wins id calls disk (ok s) = session_wins id calls s disk
  opened_wins id calls disk (err e) = (0, disk)

  -- How many calls of a number of sessions were told that they had consumed the key.
  unfoldable pub sessions_wins : PreAuthKeyId → FilePath → List (List (Call DateTime)) → Disk → ℕ
  unfolding opened_wins
  sessions_wins id path [] disk = 0
  sessions_wins id path (calls ∷ rest) disk =
      let (n, left) = opened_wins id calls disk (open_store h path disk) in
      n + sessions_wins id path rest left

  -- What a restart loads holds a single-use key under the id, with `n` uses left.
  abbrev OnFile : PreAuthKeyId → ℕ → FilePath → Disk → Type 0
  OnFile id n path disk =
      (s : FileStore) × (open_store h path disk ≡ ok s) × IsSingleUse c id n s.memory

  same_uses :
      (id : PreAuthKeyId) (s : MemoryStore) {m n : ℕ}
      → IsSingleUse c id m s
      → IsSingleUse c id n s
      → m ≡ n
  same_uses id s {m} {n} (key, e, single, left) (key', e', single', left') =
      let same : key ≡ key' = cc in left ∙ ap (uses_left c) same ∙ sym left'

  Loads-OnFile :
      (id : PreAuthKeyId) (path : FilePath) (disk : Disk) (s : MemoryStore) {n : ℕ}
      → Loads h c path disk s.inner
      → IsSingleUse c id n s
      → OnFile id n path disk
  Loads-OnFile id path disk s {n} (t, opens, agrees) (key, e, single, left) =
      (t, opens, (key, rw agrees.preauth_keys e, single, left))

  win_error : (id : PreAuthKeyId) (call : Call DateTime) (e : StoreError) → win id call (err e) ≡ 0
  win_error id (consume_preauth_key now j) e = refl
  win_error id _ e = refl

  module _ (fs : IsFileSystem h) (codec : IsCodec h) where
    -- What one call leaves: the store in memory and the file have no more uses left than before, less one
    -- for a call that was told that it had consumed the key.
    record Steps (id : PreAuthKeyId) (call : Call DateTime) (n : ℕ) (s : FileStore)
        (q : Answer × FileStore × Disk) : Type 0 where
      in_memory : ℕ
      on_file : ℕ
      remembers : IsSingleUse c id in_memory q.1.memory
      records : OnFile id on_file s.path q.2
      behind : in_memory ≤ on_file
      counted : win id call q.0 + on_file ≤ n
      same_path : q.1.path ≡ s.path
      same_format : q.1.format ≡ s.format

    perform-Steps :
        (id : PreAuthKeyId) (call : Call DateTime) (s : FileStore) (disk : Disk) {m n : ℕ}
        → IsOpened h s
        → Leaves c id call
        → IsSingleUse c id m s.memory
        → OnFile id n s.path disk
        → m ≤ n
        → Steps id call n s (perform h c call s disk)
    perform-Steps id call s disk {m} {n} opened leaves remembers records behind =
        let (m', used, bound) = step_SingleUse c id call s.memory leaves remembers in
        elim (perform-Ends h c call s disk) [
          | inl (performed, same) ↦
              let keeps : IsSingleUse c id m' s.memory =
                subst (λ (t : FileStore). IsSingleUse c id m' t.memory) same used in
              let kept : m' ≡ m = same_uses id s.memory keeps remembers in
              rw performed (record {
                in_memory = m;
                on_file = n;
                remembers = remembers;
                records = records;
                behind = behind;
                counted = omega (arith, bound, kept);
                same_path = refl;
                same_format = refl;
              })
          | inr (inl (disk', flushed, performed)) ↦ rw performed (record {
            in_memory = m';
            on_file = m';
            remembers = used;
            records =
                Loads-OnFile id s.path disk' (next h c call s).memory
                  (flush-Loads h c fs codec (next h c call s) disk disk' opened flushed) used;
            behind = omega arith;
            counted = omega (arith, bound, behind);
            same_path = refl;
            same_format = refl;
          })
          | inr (inr (x, disk', failed, performed)) ↦
              let kept : Flushed h fs (next h c call s) disk (err x, disk') =
                rw failed at (flush-Flushed h fs (next h c call s) disk opened) in
              rw performed (record {
                in_memory = m';
                on_file = n;
                remembers = used;
                records =
                    (records.0, open_store-read h s.path disk disk' kept ∙ records.1, records.2);
                behind = omega (arith, bound, behind);
                counted = omega (arith, win_error id call x);
                same_path = refl;
                same_format = refl;
              })
        ]

    Steps-IsOpened :
        {id : PreAuthKeyId} {call : Call DateTime} {n : ℕ} (s : FileStore)
        (q : Answer × FileStore × Disk)
        → Steps id call n s q
        → IsOpened h s
        → IsOpened h q.1
    Steps-IsOpened s q steps opened = rw (steps.same_path, steps.same_format) opened

    session_bound :
        (id : PreAuthKeyId) (calls : List (Call DateTime)) (s : FileStore) (disk : Disk) {m n : ℕ}
        → IsOpened h s
        → All (Leaves c id) calls
        → IsSingleUse c id m s.memory
        → OnFile id n s.path disk
        → m ≤ n
        → (n' : ℕ) × OnFile id n' s.path (session_wins id calls s disk).1
          × ((session_wins id calls s disk).0 + n' ≤ n)
    unfolding session_wins
    session_bound id [] s disk {m} {n} opened leaves remembers records behind =
        (n, records, omega arith)
    session_bound id (call ∷ rest) s disk {m} {n} opened (l, ls) remembers records behind =
        let steps = perform-Steps id call s disk opened l remembers records behind in
        let (a, s', disk') = perform h c call s disk in
        let (n', left, bound) =
          session_bound id rest s' disk' {m = steps.in_memory} {n = steps.on_file}
            (Steps-IsOpened s (perform h c call s disk) steps opened) ls steps.remembers
            (subst (λ p. OnFile id steps.on_file p disk') (sym steps.same_path) steps.records)
            steps.behind in
        (
          n',
          subst (λ p. OnFile id n' p (session_wins id rest s' disk').1) steps.same_path left,
          omega (arith, bound, steps.counted),
        )

    sessions_bound :
        (id : PreAuthKeyId) (path : FilePath) (sessions : List (List (Call DateTime))) (disk : Disk)
        {n : ℕ}
        → All (All (Leaves c id)) sessions
        → OnFile id n path disk
        → sessions_wins id path sessions disk ≤ n
    unfolding sessions_wins
    sessions_bound id path [] disk leaves records = omega arith
    sessions_bound id path (calls ∷ rest) disk {n} (l, ls) (s, opens, remembers) =
        let (same, opened) = open_store-IsOpened h path disk s opens in
        let (n', left, bound) =
          session_bound id calls s disk {m = n} {n = n} opened l remembers
            (subst (λ p. OnFile id n p disk) (sym same) (s, opens, remembers)) (omega arith) in
        rw opens (
          omega (
            arith,
            bound,
            sessions_bound id path rest (session_wins id calls s disk).1 {n = n'} ls
                (subst (λ p. OnFile id n' p (session_wins id calls s disk).1) same left),
          ))

    -- Whatever calls fail and however often the server is restarted: a single-use key that the file holds
    -- is consumed at most once in sessions that store no key under its id anew, and not at all if it is
    -- used.
    pub sessions-single_use :
        (id : PreAuthKeyId) (path : FilePath) (sessions : List (List (Call DateTime))) (disk : Disk)
        (s : FileStore) (key : PreAuthKey)
        → All (All (Leaves c id)) sessions
        → open_store h path disk ≡ ok s
        → key_of id s.memory ≡ some key
        → key.reusable ≡ false
        → sessions_wins id path sessions disk ≤ (if key.used then 0 else 1)
    sessions-single_use id path sessions disk s key leaves opens holds single =
        sessions_bound id path sessions disk leaves (s, opens, (key, holds, single, refl))
