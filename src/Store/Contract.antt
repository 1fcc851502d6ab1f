-- ===== src/Store/Contract.antt =====
-- The contract of the trait of crates/control-core/src/store/traits.rs, as an interface: what a host
-- may inject is a backend, and a lawful one behaves as the maps of `Store.Spec`.

pub mod Backends
pub mod SingleUse
mod Tests
use oxiscale.Prelude.{◌≡◌, refl, ap, ◌∙◌, List, [], ◌∷◌, ok}
use oxiscale.Store.Chrono.{Chrono}
use oxiscale.Store.Calls.{Call, Answer, Reply}
use oxiscale.Store.Spec.{View, advance, advance_all, IsAnswer}

pub record Backend (c : Chrono) : Type 1 where
  pub State : Type 0
  pub perform : Call c.DateTime → State → Answer × State

-- A call takes effect on the maps, also where it fails; where it succeeds its answer is that of the
-- maps.
pub record IsStore {c : Chrono} (b : Backend c) : Type 1 where
  pub IsValid : b.State → Type 0
  pub view : b.State → View
  pub stays_valid :
      (call : Call c.DateTime) (s : b.State) → IsValid s → IsValid (b.perform call s).1
  pub takes :
      (call : Call c.DateTime) (s : b.State)
      → IsValid s
      → view (b.perform call s).1 ≡ advance c call (view s)
  pub answers :
      (call : Call c.DateTime) (s : b.State) (r : Reply)
      → IsValid s
      → (b.perform call s).0 ≡ ok r
      → IsAnswer c call (view s) (ok r)

module _ {c : Chrono} (b : Backend c) where
  open b use {State, perform}

  -- The calls in turn, whether they fail or not.
  abbrev pub run_all : List (Call c.DateTime) → State → State
  run_all [] s = s
  run_all (call ∷ rest) s = run_all rest (perform call s).1

  module _ (store : IsStore b) where
    open store use {IsValid, view}

    pub run_all-IsValid :
        (calls : List (Call c.DateTime)) (s : State) → IsValid s → IsValid (run_all calls s)
    run_all-IsValid [] s valid = valid
    run_all-IsValid (call ∷ rest) s valid =
        run_all-IsValid rest (perform call s).1 (store.stays_valid call s valid)

    pub view-run_all :
        (calls : List (Call c.DateTime)) (s : State)
        → IsValid s
        → view (run_all calls s) ≡ advance_all c calls (view s)
    view-run_all [] s valid = refl
    view-run_all (call ∷ rest) s valid =
        view-run_all rest (perform call s).1 (store.stays_valid call s valid)
        ∙ ap (advance_all c rest) (store.takes call s valid)
