-- ===== src/Runtime/Genesis/Configs.antt =====
-- What makes a genesis configuration of runtime/src/genesis_config_presets.rs one that the pallets
-- can start from, and that every preset has it.
use mathlib.Core.List.{Memᴰ, map-map}
use nonfungible_adapter_tuto.Base.{
  ℕ, ◌+◌, ◌*◌, ◌≤◌, ◌^◌, ◌≡◌, refl, Distinct, ap, some, List, [], ◌∷◌, map, length, All, u128_max,
  arith,
}
use nonfungible_adapter_tuto.Sdk.Keyring.{GenesisNames}
use nonfungible_adapter_tuto.Runtime.Units.{existential_deposit}
use nonfungible_adapter_tuto.Runtime.Genesis.{RuntimeGenesisConfig, endowment, testnet_genesis}

abbrev pub total_issuance : {A : Type 0} → List (A × ℕ) → ℕ
total_issuance [] = 0
total_issuance ((_, b) ∷ bs) = b + total_issuance bs

-- An account is listed with a balance of at least `least`.
abbrev pub HasAtLeast : {A : Type 0} → ℕ → List (A × ℕ) → A → Type 0
HasAtLeast least balances a = (b : ℕ) × Memᴰ (a, b) balances × (least ≤ b)

pub record IsConsistent {A U : Type 0} (g : RuntimeGenesisConfig A U) : Type 0 where
  -- Each collator has one entry of session keys, in order, with itself as the validator.
  pub accounts : map (λ x. x.0) g.session.keys ≡ g.collator_selection.invulnerables
  pub validators : map (λ x. x.1) g.session.keys ≡ g.collator_selection.invulnerables
  pub distinct : Distinct g.collator_selection.invulnerables
  -- Each collator could pay the candidacy bond.
  pub bonded :
      All
        (HasAtLeast g.collator_selection.candidacy_bond g.balances.balances)
        g.collator_selection.invulnerables
  -- No account starts below the existential deposit, and the total fits u128.
  pub alive : All (λ x. existential_deposit ≤ x.1) g.balances.balances
  pub issuance : total_issuance g.balances.balances ≤ u128_max
  -- The sudo key is set, to an account that exists.
  pub sudo_key :
      (root : A) × (g.sudo.key ≡ some root)
      × HasAtLeast existential_deposit g.balances.balances root

-- The balances that `testnet_genesis` gives to a list of accounts.
abbrev pub endow : {A : Type 0} → List A → List (A × ℕ)
endow xs = map (λ k. (k, endowment)) xs

module _ {A : Type 0} where
  mem-endow : (xs : List A) {a : A} → Memᴰ a xs → Memᴰ {A = A × ℕ} (a, endowment) (endow xs)
  mem-endow [] m = elim m [ ]
  mem-endow (x ∷ xs) (Memᴰ.head e) = Memᴰ.head (ap (λ k. (k, endowment)) e)
  mem-endow (x ∷ xs) (Memᴰ.tail m) = Memᴰ.tail (mem-endow xs m)

  pub accounts-endow : (xs : List A) → map (λ (x : A × ℕ). x.0) (endow xs) ≡ xs
  accounts-endow [] = refl
  accounts-endow (x ∷ xs) = ap (λ ys. x ∷ ys) (accounts-endow xs)

  alive-endow : (xs : List A) → All (λ (x : A × ℕ). existential_deposit ≤ x.1) (endow xs)
  alive-endow [] = tt
  alive-endow (x ∷ xs) = (omega arith, alive-endow xs)

  total_issuance-endow : (xs : List A) → total_issuance (endow xs) ≡ length xs * endowment
  total_issuance-endow [] = refl
  total_issuance-endow (x ∷ xs) = omega (arith, total_issuance-endow xs)

  bonded-endow :
      {U : Type 0} (xs : List A) (ys : List (A × U)) (least : ℕ)
      → least ≤ endowment
      → All (λ y. Memᴰ y.0 xs) ys
      → All (HasAtLeast least (endow xs)) (map (λ y. y.0) ys)
  bonded-endow xs [] least h m = tt
  bonded-endow xs (y ∷ ys) least h (m, ms) =
      ((endowment, mem-endow xs m, h), bonded-endow xs ys least h ms)

-- What `testnet_genesis` builds is consistent if the collators are distinct, they and the sudo key are
-- among the endowed accounts, and there are no more than 2 ^ 67 endowed accounts.
pub testnet_genesis-IsConsistent :
    {A U : Type 0} (names : GenesisNames) (collators : List (A × U)) (accounts : List A) (root : A)
    (id : ℕ)
    → Distinct (map (λ x. x.0) collators)
    → All (λ x. Memᴰ x.0 accounts) collators
    → Memᴰ root accounts
    → length accounts ≤ 2 ^ 67
    → IsConsistent (testnet_genesis names collators accounts root id)
unfolding testnet_genesis
testnet_genesis-IsConsistent names collators accounts root id apart members member few = record {
  accounts = map-map _ _ collators;
  validators = map-map _ _ collators;
  distinct = apart;
  bonded = bonded-endow accounts collators _ (omega arith) members;
  alive = alive-endow accounts;
  issuance = omega (arith, total_issuance-endow accounts);
  sudo_key = (root, refl, (endowment, mem-endow accounts member, omega arith));
}
