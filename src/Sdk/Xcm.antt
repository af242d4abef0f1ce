-- ===== src/Sdk/Xcm.antt =====
-- The XCM types that the runtime matches on, with the constructors that it names. `R` stands for
-- all that the code does not look into: the other constructors, and the fields that it skips.
use nonfungible_adapter_tuto.Base.{ℕ, List}

pub data BodyId (R : Type 0) : Type 0 where
  executive defense : BodyId R
  other : R → BodyId R

pub data Junction (R : Type 0) : Type 0 where
  parachain : ℕ → Junction R
  pallet_instance : ℕ → Junction R
  general_index : ℕ → Junction R
  plurality : BodyId R → R → Junction R
  other : R → Junction R

-- A location as `unpack` shows it.
pub record Location (R : Type 0) : Type 0 where
  pub parents : ℕ
  pub interior : List (Junction R)

-- `OriginKind`, what a `Transact` asks to be dispatched as.
pub data OriginKind : Type 0 where
  native sovereign_account superuser xcm : OriginKind

pub data AssetInstance (R : Type 0) : Type 0 where
  index : ℕ → AssetInstance R
  other : R → AssetInstance R

pub data Fungibility (R : Type 0) : Type 0 where
  fungible : ℕ → Fungibility R
  non_fungible : AssetInstance R → Fungibility R

pub record Asset (R : Type 0) : Type 0 where
  pub id : Location R
  pub fun : Fungibility R
