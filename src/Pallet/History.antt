-- ===== src/Pallet/History.antt =====
-- Sequences of calls of pallets/template/src/lib.rs: what every history of calls preserves, and
-- the events that it leaves.
use nonfungible_adapter_tuto.Base.{
  ℕ, refl, ◌≡◌, sym, inl, inr, List, [], ◌∷◌, ◌++◌, Result, All, arith,
}
use mathlib.Core.List.{append-nil, append_assoc}
use nonfungible_adapter_tuto.Pallet.{
  Config, Event, something_stored, DispatchError, Storage, Call, do_something_call,
  cause_error_call, dispatch,
}
use nonfungible_adapter_tuto.Pallet.Calls.{IsU32, IsValid, dispatch-IsValid}

-- The calls of a chain in order, each with its origin.
abbrev pub Calls : Config → Type 0
Calls c = List (c.Origin × Call)

-- Every call is dispatched on what the one before it left, and its result is kept.
unfoldable pub run :
    (c : Config)
    → Calls c
    → Storage c.AccountId
    → List (Result (DispatchError c.BadOrigin) (Unit {0})) × Storage c.AccountId
run c [] s = ([], s)
run c ((origin, call) ∷ calls) s =
    let (r, t) = dispatch c origin call s in let (rs, u) = run c calls t in (r ∷ rs, u)

-- From a storage in range, any sequence of calls with `u32` arguments leads to one in range.
pub run-IsValid :
    (c : Config) (calls : Calls c) (s : Storage c.AccountId)
    → All (λ (x : c.Origin × Call). IsU32 x.1) calls
    → IsValid c s
    → IsValid c (run c calls s).1
unfolding run
run-IsValid c [] s h v = v
run-IsValid c ((origin, call) ∷ calls) s (h, hs) v =
    run-IsValid c calls (dispatch c origin call s).1 hs (dispatch-IsValid c origin call s h v)

-- The event that a call announces, read off the call alone.
pub announced : (c : Config) → c.Origin → Call → List (Event c.AccountId)
announced c origin (do_something_call bn) = elim (c.ensure_signed origin) [
  | inl _ ↦ []
  | inr who ↦ something_stored bn who ∷ []
]
announced c origin cause_error_call = []

pub announced-signed :
    (c : Config) (origin : c.Origin) (bn : ℕ) (who : c.AccountId)
    → c.ensure_signed origin ≡ inr who
    → announced c origin (do_something_call bn) ≡ something_stored bn who ∷ []
unfolding announced
announced-signed c origin bn who h = ground arith

pub announced-unsigned :
    (c : Config) (origin : c.Origin) (call : Call) (bad : c.BadOrigin)
    → c.ensure_signed origin ≡ inl bad
    → announced c origin call ≡ []
unfolding announced
announced-unsigned c origin (do_something_call bn) bad h = ground arith
announced-unsigned c origin cause_error_call bad h = refl

pub announced-cause_error :
    (c : Config) (origin : c.Origin) → announced c origin cause_error_call ≡ []
unfolding announced
announced-cause_error c origin = refl

abbrev pub all_announced : (c : Config) → Calls c → List (Event c.AccountId)
all_announced c [] = []
all_announced c ((origin, call) ∷ calls) = announced c origin call ++ all_announced c calls

-- What a call adds to the events.
pub dispatch-events :
    (c : Config) (origin : c.Origin) (call : Call) (s : Storage c.AccountId)
    → (dispatch c origin call s).1.events ≡ s.events ++ announced c origin call
unfolding dispatch announced
dispatch-events c origin (do_something_call bn) s = ground (arith, append-nil s.events)
dispatch-events c origin cause_error_call s = ground (arith, append-nil s.events)

-- The events of a history are, in order, one for each signed `do_something`, with its argument and
-- its signer, and no others.
pub run-events :
    (c : Config) (calls : Calls c) (s : Storage c.AccountId)
    → (run c calls s).1.events ≡ s.events ++ all_announced c calls
unfolding run
run-events c [] s = sym (append-nil s.events)
run-events c ((origin, call) ∷ calls) s =
    rw (run-events c calls (dispatch c origin call s).1, dispatch-events c origin call s)
      (append_assoc s.events (announced c origin call) (all_announced c calls))
