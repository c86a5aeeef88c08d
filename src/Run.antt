-- ===== src/Run.antt =====
-- Code that can go wrong: a run ends in a value, or in the fault that the program would hit there.
-- A fault stands for what C++ leaves undefined or for a stop of the program, never for an error code
-- that the program returns; those are values of `Rc` and of the servers' own types.
use data_agent_demo.Prelude.{◌≡◌, refl, Bool, true, false, Option, none, some}

pub data Fault : Type 0 where
  -- a failed `assert`
  assertion : Fault
  -- an index or a copy outside a buffer, or text with no terminator in its buffer
  out_of_bounds : Fault
  -- a pointer into memory that was given back
  use_after_free : Fault
  null_pointer : Fault
  -- a thread waits for a latch that it holds itself
  deadlock : Fault
  -- an unlock of a latch that is free
  not_locked : Fault
  division_by_zero : Fault
  -- a loop that never ends
  endless : Fault
  -- a number beyond its type
  overflow : Fault

pub data Run {ℓ} (Value : Type ℓ) : Type ℓ where
  -- the fault that ends the run
  fault : Fault → Run Value
  ok : Value → Run Value

-- `do` binds with these two.
infixl 5 ◌>>◌ ◌>>=◌
abbrev pub ◌>>=◌ {ℓ κ} :
    {Value : Type ℓ} {Next : Type κ} → Run Value → (Value → Run Next) → Run Next
fault why >>= next = fault why
ok value >>= next = next value

abbrev pub ◌>>◌ {ℓ} : {Next : Type ℓ} → Run (Unit {0}) → Run Next → Run Next
fault why >> next = fault why
ok _ >> next = next

-- `assert (b)`, and any other test whose failure is the fault `e`
abbrev pub check : Bool → Fault → Run (Unit {0})
check false e = fault e
check true e = ok tt

abbrev pub or_fault {ℓ} : {Value : Type ℓ} → Option Value → Fault → Run Value
or_fault none e = fault e
or_fault (some value) e = ok value

-- A run that ends in a value had every part end in one.
pub >>=-eq-ok {κ ℓ} :
    {Value : Type κ} {Next : Type ℓ} (run : Run Value) (next : Value → Run Next) {end_value : Next}
    → run >>= next ≡ ok end_value
    → (value : Value) × (run ≡ ok value) × (next value ≡ ok end_value)
>>=-eq-ok (fault why) next ends = cc
>>=-eq-ok (ok value) next ends = (value, refl, ends)

pub >>-eq-ok {ℓ} :
    {Next : Type ℓ} (run : Run (Unit {0})) (next : Run Next) {end_value : Next}
    → run >> next ≡ ok end_value
    → next ≡ ok end_value
>>-eq-ok (fault why) next ends = cc
>>-eq-ok (ok _) next ends = ends
