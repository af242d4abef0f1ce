-- ===== src/Runtime/Units.antt =====
-- The units of balances and of time in runtime/src/lib.rs, and the deposits that
-- runtime/src/configs/mod.rs computes from them.
use nonfungible_adapter_tuto.Base.{ℕ, ◌*◌, ◌/◌}

-- `Balance` is u128.
abbrev pub unit : ℕ
unit = 1_000_000_000_000

abbrev pub milli_unit : ℕ
milli_unit = 1_000_000_000

abbrev pub micro_unit : ℕ
micro_unit = 1_000_000

abbrev pub existential_deposit : ℕ
existential_deposit = milli_unit

abbrev pub milli_secs_per_block : ℕ
milli_secs_per_block = 6000

abbrev pub slot_duration : ℕ
slot_duration = milli_secs_per_block

-- `async_backing_params`
abbrev pub unincluded_segment_capacity : ℕ
unincluded_segment_capacity = 3

abbrev pub block_processing_velocity : ℕ
block_processing_velocity = 1

abbrev pub relay_chain_slot_duration_millis : ℕ
relay_chain_slot_duration_millis = 6000

-- Time counted in blocks.
abbrev pub minutes : ℕ
minutes = 60_000 / milli_secs_per_block

abbrev pub hours : ℕ
hours = minutes * 60

abbrev pub days : ℕ
days = hours * 24

-- `Period`, `Offset` and `SessionLength`.
abbrev pub period : ℕ
period = 6 * hours

abbrev pub offset : ℕ
offset = 0

abbrev pub session_length : ℕ
session_length = 6 * hours

-- `TransactionByteFee`.
abbrev pub transaction_byte_fee : ℕ
transaction_byte_fee = 10 * micro_unit

-- The deposits of `pallet_nfts`.
abbrev pub nfts_collection_deposit : ℕ
nfts_collection_deposit = existential_deposit * 10

abbrev pub nfts_item_deposit : ℕ
nfts_item_deposit = existential_deposit

abbrev pub nfts_metadata_deposit_base : ℕ
nfts_metadata_deposit_base = existential_deposit

abbrev pub nfts_attribute_deposit_base : ℕ
nfts_attribute_deposit_base = existential_deposit

abbrev pub nfts_deposit_per_byte : ℕ
nfts_deposit_per_byte = existential_deposit / 100
