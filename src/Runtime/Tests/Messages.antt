-- ===== src/Runtime/Tests/Messages.antt =====
-- The XCM rules of runtime/src/configs/xcm_config.rs on concrete assets and messages.
use nonfungible_adapter_tuto.Base.{
  ℕ, ◌+◌, ◌*◌, ◌≡◌, ◌≢◌, ◌↔◌, ◌⊎◌, refl, inl, inr, Bool, true, false, ◌&&◌, ◌||◌, some, [], ◌∷◌, ok,
  arith, List,
}
use mathlib.Core.Bool.{not}
use nonfungible_adapter_tuto.Sdk.Xcm.{parachain, Location, Asset}
use nonfungible_adapter_tuto.Runtime.Xcm.{as_u32, matches_nonfungibles}
use nonfungible_adapter_tuto.Runtime.Xcm.Matcher.{
  nft_asset, matches_nonfungibles_iff, matches_nonfungibles-nft_asset, IsCanonical,
  matches_nonfungibles_aliases,
}
use nonfungible_adapter_tuto.Runtime.Xcm.Barrier.{BarrierApi, barrier, MayEnter, admits-barrier_iff}

-- Item 5 of collection 3.
matches_nonfungibles_iff_example :
    (matches_nonfungibles (nft_asset ℕ 3 5) ≡ ok (3, 5))
    ↔ ((c : ℕ) × (i : ℕ) × (nft_asset ℕ 3 5 ≡ nft_asset ℕ c i) × (as_u32 c ≡ 3) × (as_u32 i ≡ 5))
matches_nonfungibles_iff_example = matches_nonfungibles_iff ℕ (nft_asset ℕ 3 5) 3 5

matches_nonfungibles-nft_asset_example :
    (matches_nonfungibles (nft_asset ℕ 3 5) ≡ ok (3, 5))
    × ((a : Asset ℕ) → IsCanonical ℕ a → matches_nonfungibles a ≡ ok (3, 5) → nft_asset ℕ 3 5 ≡ a)
matches_nonfungibles-nft_asset_example =
    matches_nonfungibles-nft_asset ℕ 3 5 (omega arith) (omega arith)

-- Collection 2 ^ 32 is taken for collection 0.
matches_nonfungibles_aliases_example :
    (matches_nonfungibles (nft_asset ℕ (0 + 1 * 4_294_967_296) (7 + 0 * 4_294_967_296))
      ≡ matches_nonfungibles (nft_asset ℕ 0 7))
    × (nft_asset ℕ (0 + 1 * 4_294_967_296) (7 + 0 * 4_294_967_296) ≢ nft_asset ℕ 0 7)
matches_nonfungibles_aliases_example = matches_nonfungibles_aliases ℕ 0 7 1 0 (omega arith)

abbrev parent : Location ℕ
parent = record { parents = 1; interior = [] }

abbrev sibling : Location ℕ
sibling = record { parents = 1; interior = parachain 1001 ∷ [] }

-- A message as the answers to the questions that the barrier asks of it.
pub record Message : Type 0 where
  pub from : Location ℕ
  pub credit : Bool
  pub buys : Bool
  pub unpaid : Bool
  pub to_relay_chain : Bool

abbrev pub any_of : List (Message → Bool) → Message → Bool
any_of [] m = false
any_of (g ∷ gs) m = g m || any_of gs m

-- Gates and deniers are tests; the computed origin is the origin.
abbrev pub barrier_api : BarrierApi ℕ
barrier_api = record {
  Message = Message;
  origin = λ m. m.from;
  Gate = Message → Bool;
  Denier = Message → Bool;
  admits = λ g m. g m;
  denies = λ d m. d m;
  deny_reserve_transfer_to_relay_chain = λ m. m.to_relay_chain;
  deny_recursively = λ d. d;
  deny_then_try = λ d g m. not (d m) && g m;
  trailing_set_topic_as_id = λ g. g;
  without_topic = λ m. m;
  take_weight_credit = λ m. m.credit;
  has_weight_credit = λ m. m.credit;
  with_computed_origin = λ g universal n. g;
  computed = λ universal n m. some m;
  allow_top_level_paid_execution_from = λ f m. f m.from && m.buys;
  allow_explicit_unpaid_execution_from = λ f m. f m.from && m.unpaid;
  buys_execution = λ m. m.buys;
  asks_unpaid = λ m. m.unpaid;
  tuple = any_of;
  admits-tuple_nil = λ m. refl;
  admits-tuple_cons = λ g gs m. refl;
  admits-deny_then_try = λ d g m. refl;
  denies-deny_recursively = λ d m h. h;
  admits-trailing_set_topic_as_id = λ g m. refl;
  admits-take_weight_credit = λ m. refl;
  admits-with_computed_origin = λ g universal n m. refl;
  admits-allow_top_level_paid = λ f m. refl;
  admits-allow_explicit_unpaid = λ f m. refl;
}

abbrev here : Location ℕ
here = record { parents = 0; interior = parachain 1000 ∷ [] }

-- The parent asks for free execution.
abbrev free : Message
free = record { from = parent; credit = false; buys = false; unpaid = true; to_relay_chain = false }

admits-barrier_iff_example : (barrier_api.admits (barrier barrier_api here) free ≡ true) ↔ (
    (free.to_relay_chain ≡ false) × ((free.credit ≡ true) ⊎ MayEnter barrier_api here (some free)))
admits-barrier_iff_example = admits-barrier_iff barrier_api here free

free_enters : barrier_api.admits (barrier barrier_api here) free ≡ true
free_enters =
    (admits-barrier_iff barrier_api here free).1 (refl, inr (free, refl, inr (refl, inl refl)))
