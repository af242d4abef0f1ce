-- ===== src/Runtime/Genesis/Presets.antt =====
-- Every preset of runtime/src/genesis_config_presets.rs is a configuration to start from.
use Prim.Native.String.{String}
use mathlib.Core.List.{Memᴰ, map-map}
use mathlib.Core.Path.{subst}
use nonfungible_adapter_tuto.Base.{
  ℕ, ◌≤◌, ◌≡◌, refl, ap, ◌⊎◌, inl, inr, some, List, [], ◌∷◌, map, length, length-map, All, Distinct,
  arith,
}
use nonfungible_adapter_tuto.Sdk.Keyring.{Keyring, GenesisNames}
use nonfungible_adapter_tuto.Runtime.Genesis.{
  Genesis, collator, endowed, testnet_genesis, template_session_keys, parachain_id, parachain_b_id,
  patch_of, local_testnet_genesis, development_config_genesis, parachain_a_genesis,
  parachain_b_genesis,
}
use nonfungible_adapter_tuto.Runtime.Genesis.Configs.{
  IsConsistent, accounts-endow, testnet_genesis-IsConsistent,
}

mem-map {ℓ κ} :
    {A : Type ℓ} {B : Type κ} (f : A → B) (xs : List A) {a : A} → Memᴰ a xs → Memᴰ (f a) (map f xs)
mem-map f [] m = elim m [ ]
mem-map f (x ∷ xs) (Memᴰ.head e) = Memᴰ.head (ap f e)
mem-map f (x ∷ xs) (Memᴰ.tail m) = Memᴰ.tail (mem-map f xs m)

-- `MaxInvulnerables` of `pallet_collator_selection`, in runtime/src/configs/mod.rs.
abbrev pub max_invulnerables : ℕ
max_invulnerables = 20

module _ (k : Keyring) (names : GenesisNames) where
  -- What a configuration of this repository has: it is consistent, endows no account twice and gives no
  -- session key twice (`pallet_balances` and `pallet_session` panic otherwise), with one or more
  -- collators and no more than the pallet holds, and with the id of one of the two parachains.
  pub record IsPreset (g : Genesis k names) : Type 0 where
    pub consistent : IsConsistent g
    pub distinct_balances : Distinct (map (λ x. x.0) g.balances.balances)
    pub distinct_keys : Distinct (map (λ x. x.2.aura) g.session.keys)
    pub some_collator : 1 ≤ length g.collator_selection.invulnerables
    pub few_collators : length g.collator_selection.invulnerables ≤ max_invulnerables
    pub known_id :
        (g.parachain_info.parachain_id ≡ parachain_id)
        ⊎ (g.parachain_info.parachain_id ≡ parachain_b_id)

  endowed_alice : Memᴰ (k.to_account_id k.alice) (map k.to_account_id k.well_known)
  endowed_alice = mem-map k.to_account_id k.well_known k.alice_well_known

  endowed_bob : Memᴰ (k.to_account_id k.bob) (map k.to_account_id k.well_known)
  endowed_bob = mem-map k.to_account_id k.well_known k.bob_well_known

  few_endowed : length (map k.to_account_id k.well_known) ≤ 256
  few_endowed = omega (arith, length-map k.well_known k.to_account_id, k.length-well_known)

  module _ (collators : List (k.AccountId × k.AuraId)) (root : k.AccountId) (id : ℕ)
      (apart : Distinct (map (λ x. x.0) collators)) (keys : Distinct (map (λ x. x.1) collators))
      (members : All (λ (x : k.AccountId × k.AuraId). Memᴰ x.0 (endowed k names)) collators)
      (member : Memᴰ root (endowed k names)) (one : 1 ≤ length collators)
      (few : length collators ≤ max_invulnerables)
      (known : (id ≡ parachain_id) ⊎ (id ≡ parachain_b_id)) where
    testnet_genesis-IsPreset : IsPreset (testnet_genesis names collators (endowed k names) root id)
    unfolding testnet_genesis template_session_keys
    testnet_genesis-IsPreset =
        let same = length-map collators (λ x. x.0) in
        record {
          consistent =
              testnet_genesis-IsConsistent names collators (endowed k names) root id apart members
                member (omega (arith, few_endowed));
          distinct_balances = rw (accounts-endow (endowed k names)) (k.accounts_distinct);
          distinct_keys = rw (map-map _ _ collators) keys;
          some_collator = omega (arith, same);
          few_collators = omega (arith, same);
          known_id = known;
        }

  -- The collators of the presets with two of them, and of those with one.
  abbrev two : List (k.AccountId × k.AuraId)
  two = collator k names k.alice ∷ collator k names k.bob ∷ []

  one-IsPreset :
      (key : k.Key) (id : ℕ)
      → Memᴰ (k.to_account_id key) (endowed k names)
      → (id ≡ parachain_id) ⊎ (id ≡ parachain_b_id)
      → IsPreset (
          testnet_genesis names
            (collator k names key ∷ [])
            (endowed k names)
            (k.to_account_id key)
            id)
  one-IsPreset key id m known =
      testnet_genesis-IsPreset (collator k names key ∷ []) (k.to_account_id key) id (tt, tt)
        (tt, tt) (m, tt) m (omega arith) (omega arith) known

  two-IsPreset :
      IsPreset (testnet_genesis names two (endowed k names) (k.to_account_id k.alice) parachain_id)
  two-IsPreset =
      testnet_genesis-IsPreset two (k.to_account_id k.alice) parachain_id
        ((k.accounts_differ, tt), (tt, tt)) ((k.keys_differ, tt), (tt, tt))
        (endowed_alice, (endowed_bob, tt)) endowed_alice (omega arith) (omega arith) (inl refl)

  patch_of-cases :
      (id : String) {g : Genesis k names}
      → patch_of k names id ≡ some g
      → (local_testnet_genesis k names ≡ g)
        ⊎ (development_config_genesis k names ≡ g)
        ⊎ (parachain_a_genesis k names ≡ g)
        ⊎ (parachain_b_genesis k names ≡ g)
  unfolding patch_of
  patch_of-cases id h = ground arith

  -- Whatever preset is asked for, the configuration that it names is one to start a chain from.
  pub patch_of-IsPreset :
      (id : String) {g : Genesis k names} → patch_of k names id ≡ some g → IsPreset g
  unfolding local_testnet_genesis development_config_genesis parachain_a_genesis parachain_b_genesis
  patch_of-IsPreset id h = elim (patch_of-cases id h) [
    | inl e ↦ subst IsPreset e two-IsPreset
    | inr (inl e) ↦ subst IsPreset e two-IsPreset
    | inr (inr (inl e)) ↦
        subst IsPreset e (one-IsPreset k.alice parachain_id endowed_alice (inl refl))
    | inr (inr (inr e)) ↦
        subst IsPreset e (one-IsPreset k.bob parachain_b_id endowed_bob (inr refl))
  ]
