-- ===== src/Sdk/Numbers.antt =====
-- Weights and per-billion fractions (`sp_weights::Weight`, `RuntimeDbWeight`, `Perbill`), which the
-- pallet and the runtime only call.
use nonfungible_adapter_tuto.Base.{
  ℕ, ◌+◌, ◌-◌, ◌*◌, ◌/◌, ◌≤◌, ◌<◌, min, ◌≡◌, u64_max, saturating_mul,
}

-- The struct that the runtime builds: the time of one read and of one write.
pub record RuntimeDbWeight : Type 0 where
  pub read : ℕ
  pub write : ℕ

pub record Numbers : Type 1 where
  pub Weight : Type 0
  pub from_parts : ℕ → ℕ → Weight
  pub ref_time : Weight → ℕ
  pub proof_size : Weight → ℕ
  pub saturating_add : Weight → Weight → Weight
  -- `+` and `-` on weights, component by component.
  pub add : Weight → Weight → Weight
  pub sub : Weight → Weight → Weight
  pub saturating_div : Weight → ℕ → Weight
  pub reads : RuntimeDbWeight → ℕ → Weight
  pub writes : RuntimeDbWeight → ℕ → Weight
  pub reads_writes : RuntimeDbWeight → ℕ → ℕ → Weight
  pub ref_time_le : (w : Weight) → ref_time w ≤ u64_max
  pub ref_time-from_parts : (t p : ℕ) → t ≤ u64_max → ref_time (from_parts t p) ≡ t
  pub proof_size-from_parts : (t p : ℕ) → p ≤ u64_max → proof_size (from_parts t p) ≡ p
  pub ref_time-saturating_add :
      (v w : Weight) → ref_time (saturating_add v w) ≡ min (ref_time v + ref_time w) u64_max
  pub proof_size-saturating_add :
      (v w : Weight) → proof_size (saturating_add v w) ≡ min (proof_size v + proof_size w) u64_max
  pub ref_time-add :
      (v w : Weight)
      → ref_time v + ref_time w ≤ u64_max
      → ref_time (add v w) ≡ ref_time v + ref_time w
  pub proof_size-add :
      (v w : Weight)
      → proof_size v + proof_size w ≤ u64_max
      → proof_size (add v w) ≡ proof_size v + proof_size w
  pub ref_time-sub :
      (v w : Weight) → ref_time w ≤ ref_time v → ref_time (sub v w) ≡ ref_time v - ref_time w
  pub proof_size-sub :
      (v w : Weight)
      → proof_size w ≤ proof_size v
      → proof_size (sub v w) ≡ proof_size v - proof_size w
  pub ref_time-saturating_div :
      (w : Weight) (k : ℕ) → 0 < k → ref_time (saturating_div w k) ≡ ref_time w / k
  pub proof_size-saturating_div :
      (w : Weight) (k : ℕ) → 0 < k → proof_size (saturating_div w k) ≡ proof_size w / k
  pub ref_time-reads :
      (db : RuntimeDbWeight) (n : ℕ) → ref_time (reads db n) ≡ saturating_mul db.read n
  pub proof_size-reads : (db : RuntimeDbWeight) (n : ℕ) → proof_size (reads db n) ≡ 0
  pub ref_time-writes :
      (db : RuntimeDbWeight) (n : ℕ) → ref_time (writes db n) ≡ saturating_mul db.write n
  pub proof_size-writes : (db : RuntimeDbWeight) (n : ℕ) → proof_size (writes db n) ≡ 0
  pub ref_time-reads_writes :
      (db : RuntimeDbWeight) (r w : ℕ)
      → ref_time (reads_writes db r w)
        ≡ min (saturating_mul db.read r + saturating_mul db.write w) u64_max
  pub proof_size-reads_writes :
      (db : RuntimeDbWeight) (r w : ℕ) → proof_size (reads_writes db r w) ≡ 0
  -- The constants `WEIGHT_REF_TIME_PER_*`: reference time is counted in picoseconds.
  pub per_second : ℕ
  pub per_millis : ℕ
  pub per_micros : ℕ
  pub per_nanos : ℕ
  pub per_second_lem : per_second ≡ 1_000_000_000_000
  pub per_millis_lem : per_millis ≡ 1_000_000_000
  pub per_micros_lem : per_micros ≡ 1_000_000
  pub per_nanos_lem : per_nanos ≡ 1_000
  -- `Perbill`: parts of a billion.
  pub Perbill : Type 0
  pub parts : Perbill → ℕ
  pub from_percent : ℕ → Perbill
  pub from_rational : ℕ → ℕ → Perbill
  pub mul : Perbill → ℕ → ℕ
  pub scale : Perbill → Weight → Weight
  pub parts-from_percent : (x : ℕ) → x ≤ 100 → parts (from_percent x) ≡ x * 10_000_000
  -- A fraction is rounded down to parts of a billion.
  pub parts-from_rational :
      (p q : ℕ) → p ≤ q → 0 < q → parts (from_rational p q) ≡ p * 1_000_000_000 / q
  -- A product is rounded to a nearest integer.
  pub mul_le : (x : Perbill) (n : ℕ) → mul x n * 1_000_000_000 ≤ parts x * n + 500_000_000
  pub mul_ge : (x : Perbill) (n : ℕ) → parts x * n ≤ mul x n * 1_000_000_000 + 500_000_000
  pub ref_time-scale : (x : Perbill) (w : Weight) → ref_time (scale x w) ≡ mul x (ref_time w)
  pub proof_size-scale : (x : Perbill) (w : Weight) → proof_size (scale x w) ≡ mul x (proof_size w)
