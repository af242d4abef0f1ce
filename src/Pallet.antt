-- ===== src/Pallet.antt =====
-- pallets/template/src/lib.rs: the storage item, the events, the errors and the two dispatchable
-- calls of the template pallet. What the code takes of `frame_system` is the record `Config`;
-- events are kept as the sequence of the calls of `deposit_event`.
pub mod Weights
pub mod Calls
pub mod History
pub mod Counting
pub mod Benchmarking
mod Mock
mod Tests
use nonfungible_adapter_tuto.Base.{
  ℕ, ◌≤◌, ◌⊎◌, inl, inr, Option, none, some, List, [], ◌∷◌, ◌++◌, u32_max, checked_add, Result, ok,
  err,
}

-- What `T: Config` gives. `BlockNumberFor<T>` is an unsigned integer that holds every `u32`.
pub record Config : Type 1 where
  pub AccountId : Type 0
  pub Origin : Type 0
  pub BadOrigin : Type 0
  pub ensure_signed : Origin → BadOrigin ⊎ AccountId
  pub max_block_number : ℕ
  pub u32_fits : u32_max ≤ max_block_number

pub record CompositeStruct : Type 0 where
  pub block_number : ℕ

pub data Event (AccountId : Type 0) : Type 0 where
  something_stored : ℕ → AccountId → Event AccountId

pub data Error : Type 0 where
  none_value storage_overflow : Error

-- `DispatchError`, as far as the calls build it.
pub data DispatchError (BadOrigin : Type 0) : Type 0 where
  bad_origin : BadOrigin → DispatchError BadOrigin
  module_error : Error → DispatchError BadOrigin

-- `Something`, and the events deposited so far, the oldest first.
pub record Storage (AccountId : Type 0) : Type 0 where
  pub something : Option CompositeStruct
  pub events : List (Event AccountId)

module _ (c : Config) where
  open c use {AccountId, Origin, BadOrigin, ensure_signed, max_block_number}

  -- A call reads and writes the storage, and ends with a value or an error. What was written
  -- before an error stays written here: that nothing is, is a theorem.
  abbrev pub Dispatch : Type 0 → Type 0
  Dispatch A = Storage AccountId → Result (DispatchError BadOrigin) A × Storage AccountId

  infixl 5 ◌>>=◌ ◌>>◌
  abbrev pub ◌>>=◌ : {A B : Type 0} → Dispatch A → (A → Dispatch B) → Dispatch B
  ◌>>=◌ m f s = let (r, t) = m s in elim r [ ok a ↦ f a t | err e ↦ (err e, t) ]

  abbrev pub ◌>>◌ : {A B : Type 0} → Dispatch A → Dispatch B → Dispatch B
  m >> k = m >>= λ _. k

  -- `ensure_signed(origin)?`
  abbrev pub signer : Origin → Dispatch AccountId
  signer origin s = elim (ensure_signed origin) [
    | inl bad ↦ (err (bad_origin bad), s)
    | inr who ↦ (ok who, s)
  ]

  -- `Err(e)?` and `.ok_or(e)?`
  abbrev pub raise : {A : Type 0} → Error → Dispatch A
  raise e s = (err (module_error e), s)

  abbrev pub ok_or : {A : Type 0} → Option A → Error → Dispatch A
  ok_or none e s = raise e s
  ok_or (some a) e s = (ok a, s)

  -- `<Something<T>>::get()` and `::put(..)`, and `Self::deposit_event(..)`.
  abbrev pub get : Dispatch (Option CompositeStruct)
  get s = (ok s.something, s)

  abbrev pub put : CompositeStruct → Dispatch (Unit {0})
  put v s = (ok tt, record s { something = some v })

  abbrev pub deposit_event : Event AccountId → Dispatch (Unit {0})
  deposit_event e s = (ok tt, record s { events = s.events ++ e ∷ [] })

  pub do_something : Origin → ℕ → Dispatch (Unit {0})
  do_something origin bn = do
    who ← signer origin
    put (record { block_number = bn })
    deposit_event (something_stored bn who)

  -- The match on the value read.
  increment : Option CompositeStruct → Dispatch (Unit {0})
  increment none = raise none_value
  increment (some old) = do
    block_number ← ok_or (checked_add max_block_number old.block_number 1) storage_overflow
    put (record old { block_number = block_number })

  pub cause_error : Origin → Dispatch (Unit {0})
  unfolding increment
  cause_error origin = do signer origin; old ← get; increment old

-- The calls as values: the enum that `#[pallet::call]` makes of the two functions, with its
-- dispatch.
pub data Call : Type 0 where
  do_something_call : ℕ → Call
  cause_error_call : Call

unfoldable pub dispatch :
    (c : Config)
    → c.Origin
    → Call
    → Storage c.AccountId
    → Result (DispatchError c.BadOrigin) (Unit {0}) × Storage c.AccountId
unfolding do_something cause_error
dispatch c origin (do_something_call bn) = do_something c origin bn
dispatch c origin cause_error_call = cause_error c origin
