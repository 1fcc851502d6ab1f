-- ===== src/Store/Memory/Tests.antt =====
-- The theorems on crates/control-core/src/store/memory.rs at concrete inputs.
use oxiscale.Prelude.{ℕ, ◌≡◌, refl, true, false, none, some, [], ◌∷◌, inl, inr}
use oxiscale.Store.Types.{PreAuthKeyId, PreAuthKey}
use oxiscale.Store.Table.{find, write_first}
use oxiscale.Store.Calls.{Call, consume_preauth_key, list_nodes, upsert_node, delete_node}
use oxiscale.Store.Spec.{nothing, advance_all, IsAnswer}
use oxiscale.Store.Memory
use oxiscale.Store.Memory.{MemoryStore, preauth_key_expired}
use oxiscale.Store.Memory.Trace.{perform, run, wins}
use oxiscale.Store.Memory.Consume.{key_of}
use oxiscale.Store.Memory.Unique.{IsWellFormed, new-IsWellFormed, perform-IsWellFormed}
use oxiscale.Store.Memory.Refines.{new_refines}
use oxiscale.Store.Memory.Expiry.{wins-expired, wins-exactly_once}
use oxiscale.Store.Memory.Reusable.{wins-reusable}
use oxiscale.Store.Samples.{calendar, today, sample_key, with_key, sensor}

abbrev try : PreAuthKeyId → Call ℕ
try id = consume_preauth_key today id

two_tries_of_single_use :
    wins calendar 1 (try 1 ∷ try 1 ∷ []) (with_key (sample_key 1 false none)) ≡ 1
unfolding wins perform Memory.consume_preauth_key preauth_key_expired find write_first
two_tries_of_single_use = refl

wins-exactly_once_example :
    wins calendar 1 (try 2 ∷ try 1 ∷ []) (with_key (sample_key 1 false none)) ≡ 1
unfolding find preauth_key_expired
wins-exactly_once_example =
    wins-exactly_once calendar 1 (try 2 ∷ try 1 ∷ []) (with_key (sample_key 1 false none))
      (sample_key 1 false none) (tt, (tt, tt)) refl refl refl (inr (inl (refl, refl)))

abbrev old_key : PreAuthKey
old_key = sample_key 3 true (some "2000-01-01T00:00:00Z")

wins-expired_example : wins calendar 3 (try 3 ∷ try 3 ∷ []) (with_key old_key) ≡ 0
unfolding find preauth_key_expired
wins-expired_example =
    wins-expired calendar 3 20000 (try 3 ∷ try 3 ∷ []) (with_key old_key) old_key (refl, (refl, tt))
      refl refl

abbrev shared_key : PreAuthKey
shared_key = sample_key 2 true none

wins-reusable_example :
    (wins calendar 2 (try 2 ∷ try 2 ∷ []) (with_key shared_key) ≡ 2)
    × (key_of 2 (run calendar (try 2 ∷ try 2 ∷ []) (with_key shared_key)) ≡ some shared_key)
unfolding find preauth_key_expired
wins-reusable_example =
    wins-reusable calendar 2 (try 2 ∷ try 2 ∷ []) (with_key shared_key) shared_key (tt, (tt, tt))
      refl refl

new_refines_example :
    IsAnswer calendar
      (list_nodes 1)
      (advance_all calendar (upsert_node sensor ∷ delete_node 3 ∷ []) nothing)
      (perform calendar
        (list_nodes 1)
        (run calendar (upsert_node sensor ∷ delete_node 3 ∷ []) Memory.new)).0
new_refines_example = new_refines calendar (upsert_node sensor ∷ delete_node 3 ∷ []) (list_nodes 1)

perform-IsWellFormed_example :
    IsWellFormed (perform calendar (upsert_node sensor) Memory.new).1.inner
perform-IsWellFormed_example =
    perform-IsWellFormed calendar (upsert_node sensor) Memory.new new-IsWellFormed
