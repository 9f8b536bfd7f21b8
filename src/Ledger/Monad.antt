-- ===== src/Ledger/Monad.antt =====
-- The body of the `try` in `run_ledger_transfer`: an open transaction with the local variables
-- that the handlers read. A raise keeps what was written so far; undoing it is the handler's work.
use payops_intelligence.Prelude.{Bool, true, false, Option, none, some, String, List, ℤ}
use payops_intelligence.Ledger.Rows.{TransferOperation}
use payops_intelligence.Ledger.Database.{Tables, Store}

-- `InjectedFailure`, `ConsistencyError`, and any exception of the database.
pub data Error : Type 0 where
  injected : String → Error
  inconsistent : String → Error
  database : Error

pub data Result (A : Type 0) : Type 0 where
  ok : A → Result A
  err : Error → Result A

pub record Work (T : Tables) : Type 0 where
  pub view : Store T
  pub before_source : ℤ
  pub before_dest : ℤ
  pub operations : List TransferOperation

abbrev pub Action : Tables → Type 0 → Type 0
Action T A = Work T → Result A × Work T

module _ {T : Tables} {A : Type 0} where
  abbrev pub pure : A → Action T A
  pure a w = (ok a, w)

  abbrev pub raise : Error → Action T A
  raise e w = (err e, w)

  abbrev pub gets : (Work T → A) → Action T A
  gets f w = (ok (f w), w)

  abbrev pub or_raise : Option A → Error → Action T A
  or_raise none e = raise e
  or_raise (some a) e = pure a

-- What follows a call that has ended.
abbrev pub proceed :
    {T : Tables} {A B : Type 0} → (A → Action T B) → Result A × Work T → Result B × Work T
proceed f (ok a, w) = f a w
proceed f (err e, w) = (err e, w)

infixl 5 ◌>>=◌ ◌>>◌
abbrev pub ◌>>=◌ : {T : Tables} {A B : Type 0} → Action T A → (A → Action T B) → Action T B
◌>>=◌ m f w = proceed f (m w)

abbrev pub ◌>>◌ : {T : Tables} {A B : Type 0} → Action T A → Action T B → Action T B
m >> k = m >>= λ _. k

module _ {T : Tables} where
  abbrev pub raise_if : Bool → Error → Action T (Unit {0})
  raise_if true e w = (err e, w)
  raise_if false e w = (ok tt, w)

  abbrev pub modify : (Work T → Work T) → Action T (Unit {0})
  modify f w = (ok tt, f w)
