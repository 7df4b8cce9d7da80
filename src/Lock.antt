-- ===== src/Lock.antt =====
-- A `Mutex` or `RwLock` of the standard library: a value and the mark that a thread panicked while
-- it held the lock. Taking a poisoned lock answers an error.
use quik.Base.{Bool, true, false, Option, none, some}

pub record Lock {ℓ} (A : Type ℓ) : Type ℓ where
  pub is_poisoned : Bool
  pub value : A

module _ {ℓ} {A : Type ℓ} where
  -- `lock.read().ok()`.
  abbrev pub read : Lock A → Option A
  read l = elim l.is_poisoned [ true ↦ none | false ↦ some l.value ]

  -- `if let Ok(mut guard) = lock.write() { … }`.
  abbrev pub write : (A → A) → Lock A → Lock A
  write f l = elim l.is_poisoned [ true ↦ l | false ↦ record l { value = f l.value } ]

  abbrev pub fresh : A → Lock A
  fresh a = record { is_poisoned = false; value = a }
