-- ===== src/Pallet/Calls.antt =====
-- What one call of pallets/template/src/lib.rs does, on every branch.
use nonfungible_adapter_tuto.Base.{
  ℕ, ◌≤◌, ◌≡◌, ◌↔◌, inl, inr, Option, none, some, [], ◌∷◌, ◌++◌, u32_max, ok, err, arith,
}
use nonfungible_adapter_tuto.Pallet.{
  Config, CompositeStruct, something_stored, none_value, storage_overflow, DispatchError,
  bad_origin, module_error, Storage, cause_error, Call, do_something_call, cause_error_call,
  dispatch,
}

-- A call that ends with an error has changed nothing: neither the stored value nor the events.
pub dispatch_error_unchanged :
    (c : Config) (origin : c.Origin) (call : Call) (s : Storage c.AccountId)
    {e : DispatchError c.BadOrigin}
    → (dispatch c origin call s).0 ≡ err e
    → (dispatch c origin call s).1 ≡ s
unfolding dispatch
dispatch_error_unchanged c origin (do_something_call bn) s h = ground arith
dispatch_error_unchanged c origin cause_error_call s h = ground arith

-- The stored block number is one that `BlockNumberFor<T>` can hold.
abbrev pub Fits : ℕ → Option CompositeStruct → Type 0
Fits top none = Unit
Fits top (some v) = v.block_number ≤ top

abbrev pub IsValid : (c : Config) → Storage c.AccountId → Type 0
IsValid c s = Fits c.max_block_number s.something

-- When `cause_error` fails, and how: exactly an unsigned origin gives `bad_origin`, exactly a
-- signed call on an empty item gives `none_value`, and exactly a signed call on the largest block
-- number gives `storage_overflow`.
pub cause_error_failures :
    (c : Config) (origin : c.Origin) (s : Storage c.AccountId)
    → IsValid c s
    → ((bad : c.BadOrigin)
        → ((cause_error c origin s).0 ≡ err (bad_origin bad)) ↔ (c.ensure_signed origin ≡ inl bad))
      × (((cause_error c origin s).0 ≡ err (module_error none_value))
          ↔ ((who : c.AccountId) × (c.ensure_signed origin ≡ inr who) × (s.something ≡ none)))
      × (((cause_error c origin s).0 ≡ err (module_error storage_overflow)) ↔ (
          (who : c.AccountId) × (c.ensure_signed origin ≡ inr who)
          × (s.something ≡ some (record { block_number = c.max_block_number }))))
unfolding cause_error
cause_error_failures c origin s valid = (λ bad. ground arith, ground arith, ground arith)

-- A call with a `u32` argument keeps the stored number in range.
abbrev pub IsU32 : Call → Type 0
IsU32 (do_something_call bn) = bn ≤ u32_max
IsU32 cause_error_call = Unit

pub dispatch-IsValid :
    (c : Config) (origin : c.Origin) (call : Call) (s : Storage c.AccountId)
    → IsU32 call
    → IsValid c s
    → IsValid c (dispatch c origin call s).1
unfolding dispatch
dispatch-IsValid c origin (do_something_call bn) s h v = ground (arith, c.u32_fits)
dispatch-IsValid c origin cause_error_call s h v = ground arith

-- A signed `do_something` leaves its value and its event behind.
pub dispatch-do_something :
    (c : Config) (origin : c.Origin) (bn : ℕ) (s : Storage c.AccountId) (who : c.AccountId)
    → c.ensure_signed origin ≡ inr who
    → dispatch c origin (do_something_call bn) s ≡ (
      ok tt,
      record {
        something = some (record { block_number = bn });
        events = s.events ++ something_stored bn who ∷ [];
      },
    )
unfolding dispatch
dispatch-do_something c origin bn s who h = ground arith

-- An unsigned call fails with the error that its origin has, and leaves the storage as it was.
pub dispatch-unsigned :
    (c : Config) (origin : c.Origin) (call : Call) (s : Storage c.AccountId) (bad : c.BadOrigin)
    → c.ensure_signed origin ≡ inl bad
    → dispatch c origin call s ≡ (err (bad_origin bad), s)
unfolding dispatch
dispatch-unsigned c origin (do_something_call bn) s bad h = ground arith
dispatch-unsigned c origin cause_error_call s bad h = ground arith
