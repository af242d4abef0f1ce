-- ===== src/Runtime/Pallets.antt =====
-- The pallets that `mod runtime` in runtime/src/lib.rs composes, and their indices.
use mathlib.Core.List.{Memᴰ}
use nonfungible_adapter_tuto.Base.{ℕ, ◌<◌, ◌≡◌, refl, List, [], ◌∷◌, arith}

-- In the order of the source.
pub data RuntimePallet : Type 0 where
  system parachain_system timestamp parachain_info weight_reclaim : RuntimePallet
  balances transaction_payment sudo : RuntimePallet
  authorship collator_selection session aura aura_ext : RuntimePallet
  xcmp_queue polkadot_xcm cumulus_xcm message_queue : RuntimePallet
  template_pallet nfts : RuntimePallet

-- `#[runtime::pallet_index(..)]`
unfoldable pub pallet_index : RuntimePallet → ℕ
pallet_index system = 0
pallet_index parachain_system = 1
pallet_index timestamp = 2
pallet_index parachain_info = 3
pallet_index weight_reclaim = 4
pallet_index balances = 10
pallet_index transaction_payment = 11
pallet_index sudo = 15
pallet_index authorship = 20
pallet_index collator_selection = 21
pallet_index session = 22
pallet_index aura = 23
pallet_index aura_ext = 24
pallet_index xcmp_queue = 30
pallet_index polkadot_xcm = 31
pallet_index cumulus_xcm = 32
pallet_index message_queue = 33
pallet_index template_pallet = 50
pallet_index nfts = 51

-- No two pallets share an index: a call, an event or a location with one names one pallet.
pallet_index_injective : (p q : RuntimePallet) → pallet_index p ≡ pallet_index q → p ≡ q
unfolding pallet_index
pallet_index_injective p q h = ground arith

-- `AllPalletsWithSystem`: the order in which `Executive` calls the hooks of the pallets, and in which
-- the XCM executor lists them.
abbrev pub all_pallets_with_system : List RuntimePallet
all_pallets_with_system =
    system ∷ parachain_system ∷ timestamp ∷ parachain_info ∷ weight_reclaim ∷ balances
    ∷ transaction_payment ∷ sudo ∷ authorship ∷ collator_selection ∷ session ∷ aura ∷ aura_ext
    ∷ xcmp_queue ∷ polkadot_xcm ∷ cumulus_xcm ∷ message_queue ∷ template_pallet ∷ nfts ∷ []

-- The indices of a list of pallets increase.
abbrev pub Increasing : List RuntimePallet → Type 0
Increasing [] = Unit
Increasing (p ∷ []) = Unit
Increasing (p ∷ q ∷ ps) = (pallet_index p < pallet_index q) × Increasing (q ∷ ps)

-- The pallets come in the order of their indices, and the list leaves none out.
all_pallets-Increasing : Increasing all_pallets_with_system
unfolding pallet_index
all_pallets-Increasing = ground arith

all_pallets-complete : (p : RuntimePallet) → Memᴰ p all_pallets_with_system
all_pallets-complete system = search (refl, Memᴰ.head, Memᴰ.tail) depth 20
all_pallets-complete parachain_system = search (refl, Memᴰ.head, Memᴰ.tail) depth 20
all_pallets-complete timestamp = search (refl, Memᴰ.head, Memᴰ.tail) depth 20
all_pallets-complete parachain_info = search (refl, Memᴰ.head, Memᴰ.tail) depth 20
all_pallets-complete weight_reclaim = search (refl, Memᴰ.head, Memᴰ.tail) depth 20
all_pallets-complete balances = search (refl, Memᴰ.head, Memᴰ.tail) depth 20
all_pallets-complete transaction_payment = search (refl, Memᴰ.head, Memᴰ.tail) depth 20
all_pallets-complete sudo = search (refl, Memᴰ.head, Memᴰ.tail) depth 20
all_pallets-complete authorship = search (refl, Memᴰ.head, Memᴰ.tail) depth 20
all_pallets-complete collator_selection = search (refl, Memᴰ.head, Memᴰ.tail) depth 20
all_pallets-complete session = search (refl, Memᴰ.head, Memᴰ.tail) depth 20
all_pallets-complete aura = search (refl, Memᴰ.head, Memᴰ.tail) depth 20
all_pallets-complete aura_ext = search (refl, Memᴰ.head, Memᴰ.tail) depth 20
all_pallets-complete xcmp_queue = search (refl, Memᴰ.head, Memᴰ.tail) depth 20
all_pallets-complete polkadot_xcm = search (refl, Memᴰ.head, Memᴰ.tail) depth 20
all_pallets-complete cumulus_xcm = search (refl, Memᴰ.head, Memᴰ.tail) depth 20
all_pallets-complete message_queue = search (refl, Memᴰ.head, Memᴰ.tail) depth 20
all_pallets-complete template_pallet = search (refl, Memᴰ.head, Memᴰ.tail) depth 20
all_pallets-complete nfts = search (refl, Memᴰ.head, Memᴰ.tail) depth 20
