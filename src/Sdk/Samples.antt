-- ===== src/Sdk/Samples.antt =====
-- Instances of the records of this folder, on which the tests run: numbers that satisfy the
-- documented laws, and a keyring of three keys.
use mathlib.Core.List.{Memᴰ}
use native.Mathlib.Nat.{mul-le-mul_left, div-le_of_le-mul, div-le_self}
use nonfungible_adapter_tuto.Base.{
  ℕ, ◌+◌, ◌-◌, ◌*◌, ◌/◌, ◌≤◌, ◌<◌, min, ◌≡◌, refl, [], ◌∷◌, u64_max, saturating_mul, arith,
}
use nonfungible_adapter_tuto.Sdk.Numbers.{Numbers}
use nonfungible_adapter_tuto.Sdk.Keyring.{Keyring, GenesisNames}

abbrev pub parts_of : ℕ → ℕ
parts_of x = min x 1_000_000_000

abbrev pub round : ℕ → ℕ → ℕ
round x n = (parts_of x * n + 500_000_000) / 1_000_000_000

pub round_le : (x n : ℕ) → n ≤ u64_max → round x n ≤ u64_max
round_le x n h =
    let less : n * parts_of x ≤ n * 1_000_000_000 = mul-le-mul_left n (omega arith) in omega arith

pub parts_of-rational :
    (p q : ℕ) → p ≤ q → 0 < q → parts_of (p * 1_000_000_000 / q) ≡ p * 1_000_000_000 / q
parts_of-rational p q h g =
    let bound : p * 1_000_000_000 / q ≤ 1_000_000_000 = div-le_of_le-mul q (
      let e : 1_000_000_000 * p ≤ 1_000_000_000 * q = mul-le-mul_left 1_000_000_000 h in
      omega arith) in
    omega arith

pub divided : (t k : ℕ) → min (min t u64_max / k) u64_max ≡ min t u64_max / k
divided t k =
    let less : min t u64_max / k ≤ min t u64_max = div-le_self (min t u64_max) k in omega arith

abbrev pub numbers : Numbers
numbers = record {
  Weight = ℕ × ℕ;
  from_parts = λ t p. (t, p);
  ref_time = λ w. min w.0 u64_max;
  proof_size = λ w. min w.1 u64_max;
  saturating_add = λ v w. (min (v.0 + w.0) u64_max, min (v.1 + w.1) u64_max);
  add = λ v w. (v.0 + w.0, v.1 + w.1);
  sub = λ v w. (min v.0 u64_max - min w.0 u64_max, min v.1 u64_max - min w.1 u64_max);
  saturating_div = λ w k. (min w.0 u64_max / k, min w.1 u64_max / k);
  reads = λ db k. (saturating_mul db.read k, 0);
  writes = λ db k. (saturating_mul db.write k, 0);
  reads_writes = λ db r w. (saturating_mul db.read r + saturating_mul db.write w, 0);
  ref_time_le = λ w. omega arith;
  ref_time-from_parts = λ t p h. omega arith;
  proof_size-from_parts = λ t p h. omega arith;
  ref_time-saturating_add = λ v w. omega arith;
  proof_size-saturating_add = λ v w. omega arith;
  ref_time-add = λ v w h. omega arith;
  proof_size-add = λ v w h. omega arith;
  ref_time-sub = λ v w h. omega arith;
  proof_size-sub = λ v w h. omega arith;
  ref_time-saturating_div = λ w k h. divided w.0 k;
  proof_size-saturating_div = λ w k h. divided w.1 k;
  ref_time-reads = λ db k. omega arith;
  proof_size-reads = λ db k. refl;
  ref_time-writes = λ db k. omega arith;
  proof_size-writes = λ db k. refl;
  ref_time-reads_writes = λ db r w. refl;
  proof_size-reads_writes = λ db r w. refl;
  per_second = 1_000_000_000_000;
  per_millis = 1_000_000_000;
  per_micros = 1_000_000;
  per_nanos = 1_000;
  per_second_lem = refl;
  per_millis_lem = refl;
  per_micros_lem = refl;
  per_nanos_lem = refl;
  Perbill = ℕ;
  parts = parts_of;
  from_percent = λ x. x * 10_000_000;
  from_rational = λ p q. p * 1_000_000_000 / q;
  mul = round;
  scale = λ x w. (round x (min w.0 u64_max), round x (min w.1 u64_max));
  parts-from_percent = λ x h. omega arith;
  parts-from_rational = parts_of-rational;
  mul_le = λ x k. omega arith;
  mul_ge = λ x k. omega arith;
  ref_time-scale = λ x w. omega (arith, round_le x (min w.0 u64_max) (omega arith));
  proof_size-scale = λ x w. omega (arith, round_le x (min w.1 u64_max) (omega arith));
}

-- Alice, Bob and a third key, each its own account and its own session key.
abbrev pub keyring : Keyring
keyring = record {
  Key = ℕ;
  AccountId = ℕ;
  AuraId = ℕ;
  alice = 1;
  bob = 2;
  well_known = 3 ∷ 1 ∷ 2 ∷ [];
  to_account_id = λ k. k;
  public = λ k. 10 * k;
  alice_well_known = Memᴰ.tail (Memᴰ.head refl);
  bob_well_known = Memᴰ.tail (Memᴰ.tail (Memᴰ.head refl));
  accounts_distinct = ((omega arith, (omega arith, tt)), ((omega arith, tt), (tt, tt)));
  keys_differ = omega arith;
  accounts_differ = omega arith;
  length-well_known = omega arith;
}

abbrev pub genesis_names : GenesisNames
genesis_names = record {
  dev_runtime_preset = "development";
  local_testnet_runtime_preset = "local_testnet";
  xcm_version = 5;
  dev_runtime_preset_lem = refl;
  local_testnet_runtime_preset_lem = refl;
}
