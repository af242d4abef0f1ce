-- ===== src/Runtime/Benchmarks.antt =====
-- runtime/src/benchmarks.rs, the pallets that can be benchmarked, and the `Benchmark` API of
-- runtime/src/apis.rs that lists and runs them. What the SDK's macros do for one pallet is the record
-- `BenchmarkSdk`.
pub mod SetCode
use Prim.Native.String.{String}
use text.Mathlib.Text.{◌==◌}
use text.Mathlib.TextEquality.{eq_iff}
use mathlib.Core.List.{Memᴰ}
use nonfungible_adapter_tuto.Base.{
  ◌≡◌, ◌≢◌, refl, sym, ap, ◌∙◌, ◌⊎◌, inl, inr, Bool, true, false, Bool-cases, Option, none, some,
  List, [], ◌∷◌, ◌++◌, map, Result, ok, err, All, arith, if◌then◌else◌,
}

-- `define_benchmarks!`: the name of each pallet, and the type that has its benchmarks.
abbrev pub benchmarks : List (String × String)
benchmarks =
    ("frame_system", "SystemBench::<Runtime>")
    ∷ ("pallet_balances", "Balances")
    ∷ ("pallet_session", "SessionBench::<Runtime>")
    ∷ ("pallet_timestamp", "Timestamp")
    ∷ ("pallet_message_queue", "MessageQueue")
    ∷ ("pallet_sudo", "Sudo")
    ∷ ("pallet_collator_selection", "CollatorSelection")
    ∷ ("cumulus_pallet_parachain_system", "ParachainSystem")
    ∷ ("cumulus_pallet_xcmp_queue", "XcmpQueue")
    ∷ ("cumulus_pallet_weight_reclaim", "WeightReclaim")
    ∷ []

-- A batch added to those before it, where running the benchmark gave one: a benchmark that is skipped
-- adds none, and one that fails ends with its error.
abbrev pub push {ℓ} : {E A : Type ℓ} → List A → Result E (Option A) → Result E (List A)
push bs (ok (some b)) = ok (bs ++ b ∷ [])
push bs (ok none) = ok bs
push bs (err e) = err e

pub record BenchmarkSdk : Type 1 where
  pub BenchmarkConfig : Type 0
  pub BenchmarkBatch : Type 0
  pub BenchmarkList : Type 0
  pub StorageInfo : Type 0
  -- `AllPalletsWithSystem::whitelisted_storage_keys`, which running leaves out of its measure.
  pub StorageKey : Type 0
  pub whitelisted_storage_keys : List StorageKey
  -- The pallet that a request names, whether the request is for an entry, and what running it gives:
  -- a batch, none where the benchmark is skipped, or an error.
  pub pallet : BenchmarkConfig → String
  pub selects : BenchmarkConfig → String × String → Bool
  pub run_benchmark :
      BenchmarkConfig → List StorageKey → String × String → Result String (Option BenchmarkBatch)
  -- `list_benchmark!`, `add_benchmark!`, and `AllPalletsWithSystem::storage_info`.
  pub list_benchmark : String × String → Bool → BenchmarkList
  pub add_benchmark :
      BenchmarkConfig
      → List StorageKey
      → String × String
      → List BenchmarkBatch
      → Result String (List BenchmarkBatch)
  pub storage_info : List StorageInfo
  pub selects_pallet :
      (c : BenchmarkConfig) (e : String × String) → selects c e ≡ true → pallet c ≡ e.0
  pub add_benchmark-selected :
      (c : BenchmarkConfig) (w : List StorageKey) (e : String × String) (bs : List BenchmarkBatch)
      → selects c e ≡ true
      → add_benchmark c w e bs ≡ push bs (run_benchmark c w e)
  pub add_benchmark-other :
      (c : BenchmarkConfig) (w : List StorageKey) (e : String × String) (bs : List BenchmarkBatch)
      → selects c e ≡ false
      → add_benchmark c w e bs ≡ ok bs

-- The tests for a pallet's name among those of a list, and for repetitions.
absent : String → List (String × String) → Bool
absent x [] = true
absent x (y ∷ ys) = if y.0 == x then false else absent x ys

is_distinct : List (String × String) → Bool
unfolding absent
is_distinct [] = true
is_distinct (x ∷ xs) = if absent x.0 xs then is_distinct xs else false

absent-All : (x : String) (xs : List (String × String)) → absent x xs ≡ true → All (λ y. y.0 ≢ x) xs
unfolding absent
absent-All x [] h = tt
absent-All x (y ∷ ys) h = elim (Bool-cases (y.0 == x)) [
  | inl e ↦ absurd (ground arith)
  | inr e ↦ (λ q. ground (arith, eq_iff y.0 x), absent-All x ys (ground arith))
]

module _ (sdk : BenchmarkSdk) where
  open sdk use {
    BenchmarkConfig, BenchmarkBatch, BenchmarkList, StorageInfo, pallet, selects, run_benchmark,
    add_benchmark, StorageKey,
  }

  abbrev pub whitelist : List StorageKey
  whitelist = sdk.whitelisted_storage_keys

  -- `add_benchmarks!`: the entries in order, up to an error.
  add_benchmarks :
      BenchmarkConfig
      → List (String × String)
      → Result String (List BenchmarkBatch)
      → Result String (List BenchmarkBatch)
  add_benchmarks config [] r = r
  add_benchmarks config (e ∷ es) (err x) = err x
  add_benchmarks config (e ∷ es) (ok batches) =
      add_benchmarks config es (add_benchmark config whitelist e batches)

  -- `if batches.is_empty() { return Err(..) }`
  check_batches : Result String (List BenchmarkBatch) → Result String (List BenchmarkBatch)
  check_batches (err x) = err x
  check_batches (ok []) = err "Benchmark not found for this pallet."
  check_batches (ok (b ∷ bs)) = ok (b ∷ bs)

  pub dispatch_benchmark : BenchmarkConfig → Result String (List BenchmarkBatch)
  unfolding add_benchmarks check_batches
  dispatch_benchmark config = check_batches (add_benchmarks config benchmarks (ok []))

  abbrev pub benchmark_metadata : Bool → List BenchmarkList × List StorageInfo
  benchmark_metadata extra = (map (λ e. sdk.list_benchmark e extra) benchmarks, sdk.storage_info)

  -- A request is for no entry of a list.
  abbrev pub IsUnselected : BenchmarkConfig → List (String × String) → Type 0
  IsUnselected config es = All (λ e. selects config e ≡ false) es

  -- Entries that are not asked for add nothing.
  add_benchmarks-unselected :
      (config : BenchmarkConfig) (es : List (String × String))
      (r : Result String (List BenchmarkBatch))
      → IsUnselected config es
      → add_benchmarks config es r ≡ r
  unfolding add_benchmarks
  add_benchmarks-unselected config [] r h = refl
  add_benchmarks-unselected config (e ∷ es) (err x) h = refl
  add_benchmarks-unselected config (e ∷ es) (ok batches) (h, hs) =
      ap (add_benchmarks config es) (sdk.add_benchmark-other config whitelist e batches h)
      ∙ add_benchmarks-unselected config es (ok batches) hs

  -- After the entry that is asked for, there is no other for the same pallet.
  IsUnselected-rest :
      (config : BenchmarkConfig) (e : String × String) (es : List (String × String))
      → selects config e ≡ true
      → All (λ y. y.0 ≢ e.0) es
      → IsUnselected config es
  IsUnselected-rest config e [] h _ = tt
  IsUnselected-rest config e (y ∷ ys) h (apart, rest) = (
    elim (Bool-cases (selects config y)) [
      | inl s ↦ absurd (apart (sym (sdk.selects_pallet config y s) ∙ sdk.selects_pallet config e h))
      | inr s ↦ s
    ],
    IsUnselected-rest config e ys h rest,
  )

  add_benchmarks-cases :
      (config : BenchmarkConfig) (es : List (String × String))
      → is_distinct es ≡ true
      → IsUnselected config es
        ⊎ ((e : String × String) × Memᴰ e es
            × (selects config e ≡ true)
            × (add_benchmarks config es (ok []) ≡ push [] (run_benchmark config whitelist e)))
  unfolding add_benchmarks is_distinct
  add_benchmarks-cases config [] d = inl tt
  add_benchmarks-cases config (e ∷ es) d = elim (Bool-cases (selects config e)) [
    | inl s ↦
        let apart = absent-All e.0 es (ground arith) in
        inr (
          e,
          Memᴰ.head refl,
          s,
          ap (add_benchmarks config es) (sdk.add_benchmark-selected config whitelist e [] s)
              ∙ add_benchmarks-unselected config es _ (IsUnselected-rest config e es s apart),
        )
    | inr s ↦ elim (add_benchmarks-cases config es (ground arith)) [
      | inl none_of ↦ inl (s, none_of)
      | inr (f, m, t, same) ↦ inr (
        f,
        Memᴰ.tail m,
        t,
        ap (add_benchmarks config es) (sdk.add_benchmark-other config whitelist e [] s) ∙ same,
      )
    ]
  ]

  -- What running one benchmark makes of the answer.
  abbrev pub answer : Result String (Option BenchmarkBatch) → Result String (List BenchmarkBatch)
  answer (ok (some b)) = ok (b ∷ [])
  answer (ok none) = err "Benchmark not found for this pallet."
  answer (err x) = err x

  check_batches-push :
      (r : Result String (Option BenchmarkBatch)) → check_batches (push [] r) ≡ answer r
  unfolding check_batches
  check_batches-push (ok (some b)) = refl
  check_batches-push (ok none) = refl
  check_batches-push (err x) = refl

  -- A request is for one entry of the list, whose benchmark alone is run: its batch is the one batch
  -- of the answer, its error is the answer's, and if it is skipped the answer is the error that
  -- there is no benchmark for the pallet; or the request is for no entry, and the answer is that error
  -- too.
  pub dispatch_benchmark_cases :
      (config : BenchmarkConfig)
      → ((e : String × String) × Memᴰ e benchmarks
          × (selects config e ≡ true)
          × (dispatch_benchmark config ≡ answer (run_benchmark config whitelist e)))
        ⊎ (IsUnselected config benchmarks
            × (dispatch_benchmark config ≡ err "Benchmark not found for this pallet."))
  unfolding dispatch_benchmark is_distinct
  dispatch_benchmark_cases config = elim (add_benchmarks-cases config benchmarks refl) [
    | inl none_of ↦
        inr
          (none_of, ap check_batches (add_benchmarks-unselected config benchmarks (ok []) none_of))
    | inr (e, m, s, same) ↦
        inl (e, m, s, ap check_batches same ∙ check_batches-push (run_benchmark config whitelist e))
  ]
