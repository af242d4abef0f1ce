-- ===== src/Pallet/Counting.antt =====
-- The template pallet as an abstract machine: a counter that saturates at the largest block
-- number. pallets/template/src/lib.rs refines it.
use nonfungible_adapter_tuto.Base.{
  ℕ, zero, suc, ◌+◌, ◌-◌, ◌≤◌, min, ◌≡◌, refl, sym, ap, ◌∙◌, inl, inr, Option, some, List, [], ◌∷◌,
  Result, ok, err, All, arith,
}
use mathlib.Core.Option
use nonfungible_adapter_tuto.Pallet.{
  Config, CompositeStruct, Storage, Call, do_something_call, cause_error_call, dispatch,
}
use nonfungible_adapter_tuto.Pallet.Calls.{IsU32, IsValid, dispatch-IsValid}
use nonfungible_adapter_tuto.Pallet.History.{Calls, run}

-- The specification: the counter is unset or has a value, an assignment sets it, and an increment
-- stops at `top`.
abbrev pub spec_step : ℕ → Call → Option ℕ → Option ℕ
spec_step top (do_something_call bn) v = some bn
spec_step top cause_error_call v = Option.map (λ n. min (n + 1) top) v

abbrev pub spec_run : ℕ → List Call → Option ℕ → Option ℕ
spec_run top [] v = v
spec_run top (call ∷ calls) v = spec_run top calls (spec_step top call v)

-- The calls of a history whose origin is signed; the specification knows no others.
abbrev pub signed_calls : (c : Config) → Calls c → List Call
signed_calls c [] = []
signed_calls c ((origin, call) ∷ calls) =
    let rest = signed_calls c calls in
    elim (c.ensure_signed origin) [ inl _ ↦ rest | inr _ ↦ call ∷ rest ]

-- What the specification sees of the storage.
abbrev pub counter : (c : Config) → Storage c.AccountId → Option ℕ
counter c s = Option.map (λ (v : CompositeStruct). v.block_number) s.something

counter-dispatch :
    (c : Config) (origin : c.Origin) (call : Call) (s : Storage c.AccountId)
    → IsValid c s
    → counter c (dispatch c origin call s).1
      ≡ spec_run c.max_block_number (signed_calls c ((origin, call) ∷ [])) (counter c s)
unfolding dispatch
counter-dispatch c origin (do_something_call bn) s v = ground arith
counter-dispatch c origin cause_error_call s v = ground arith

spec_run-signed :
    (c : Config) (origin : c.Origin) (call : Call) (calls : Calls c) (v : Option ℕ)
    → spec_run c.max_block_number (signed_calls c ((origin, call) ∷ calls)) v
      ≡ spec_run c.max_block_number
          (signed_calls c calls)
          (spec_run c.max_block_number (signed_calls c ((origin, call) ∷ [])) v)
spec_run-signed c origin call calls v = ground arith

-- The pallet refines the counter: after any history of calls with `u32` arguments the stored block
-- number is the value of the counter after the signed calls alone.
pub counter-run :
    (c : Config) (calls : Calls c) (s : Storage c.AccountId)
    → All (λ (x : c.Origin × Call). IsU32 x.1) calls
    → IsValid c s
    → counter c (run c calls s).1 ≡ spec_run c.max_block_number (signed_calls c calls) (counter c s)
unfolding run
counter-run c [] s h v = refl
counter-run c ((origin, call) ∷ calls) s (h, hs) v =
    let t = (dispatch c origin call s).1 in
    counter-run c calls t hs (dispatch-IsValid c origin call s h v)
    ∙ ap (spec_run c.max_block_number (signed_calls c calls)) (counter-dispatch c origin call s v)
    ∙ sym (spec_run-signed c origin call calls (counter c s))

-- `k` calls of `cause_error` from one origin.
abbrev pub increments : (c : Config) → c.Origin → ℕ → Calls c
increments c origin zero = []
increments c origin (suc k) = (origin, cause_error_call) ∷ increments c origin k

abbrev pub failures {ℓ} : {E A : Type ℓ} → List (Result E A) → ℕ
failures [] = 0
failures (ok _ ∷ rs) = failures rs
failures (err _ ∷ rs) = suc (failures rs)

failures-cons {ℓ} :
    {E A : Type ℓ} (r : Result E A) (rs : List (Result E A))
    → failures (r ∷ rs) ≡ failures (r ∷ []) + failures rs
failures-cons (ok _) rs = omega arith
failures-cons (err _) rs = omega arith

-- The stored value for a block number.
abbrev pub stored : ℕ → Option CompositeStruct
stored n = some (record { block_number = n })

module _ (c : Config) (origin : c.Origin) {who : c.AccountId}
    (signed : c.ensure_signed origin ≡ inr who) where
  increment_once :
      (n : ℕ) (s : Storage c.AccountId)
      → s.something ≡ stored n
      → n ≤ c.max_block_number
      → let (r, t) = dispatch c origin cause_error_call s in
        (t.something ≡ stored (min (n + 1) c.max_block_number))
        × (failures (r ∷ []) ≡ n + 1 - min (n + 1) c.max_block_number)
  unfolding dispatch
  increment_once n s e h = ground arith

  -- From a stored `n`, `k` signed calls of `cause_error` store `n + k`, or the largest block number
  -- if that is less; the calls that would pass it fail, and no others.
  pub run-increments :
      (k n : ℕ) (s : Storage c.AccountId)
      → s.something ≡ stored n
      → n ≤ c.max_block_number
      → let (rs, t) = run c (increments c origin k) s in
        (t.something ≡ stored (min (n + k) c.max_block_number))
        × (failures rs ≡ n + k - c.max_block_number)
  unfolding run
  run-increments zero n s e h = ground arith
  run-increments (suc k) n s e h =
      let (now, failed) = increment_once n s e h in
      let (later, more) =
        run-increments k (min (n + 1) c.max_block_number) (dispatch c origin cause_error_call s).1
          now (omega arith) in
      (
        later ∙ ap stored (omega arith),
        omega (
          arith,
          failed,
          more,
          failures-cons (dispatch c origin cause_error_call s).0
              (run c (increments c origin k) (dispatch c origin cause_error_call s).1).0,
        ),
      )
