-- ===== src/Runtime/Configs/Consistency.antt =====
-- How the numbers of runtime/src/configs/mod.rs fit each other, the presets of
-- runtime/src/genesis_config_presets.rs, and what node/src/service.rs runs the consensus with.
use Prim.Native.String.{String}
use nonfungible_adapter_tuto.Base.{
  ◌+◌, ◌*◌, ◌%◌, ◌≤◌, ◌<◌, ◌≡◌, refl, ap, some, [], ◌∷◌, length, length-map, All, arith,
}
use nonfungible_adapter_tuto.Sdk.Keyring.{Keyring, GenesisNames}
use nonfungible_adapter_tuto.Runtime.Pallets.{
  authorship, session, aura_ext, pallet_index, Increasing,
}
use nonfungible_adapter_tuto.Runtime.Genesis.{Genesis, patch_of}
use nonfungible_adapter_tuto.Runtime.Genesis.Presets.{patch_of-IsPreset}
use nonfungible_adapter_tuto.Runtime.Configs.{balances_config, consensus_hook}
use nonfungible_adapter_tuto.Runtime.Configs.Collating.{
  timestamp_config, authorship_config, session_config, aura_config, collator_selection_config,
}

module _ (k : Keyring) (names : GenesisNames) where
  -- Whatever preset is asked for, its collators are within the pallets' limits: no more than the
  -- invulnerables that collator selection holds, and their session keys, with those of
  -- all the candidates that may join, no more than the authorities that Aura holds. Every balance is
  -- at least the existential deposit that the balances pallet has.
  preset_within_limits :
      (id : String) {g : Genesis k names}
      → patch_of k names id ≡ some g
      → (length g.collator_selection.invulnerables ≤ collator_selection_config.max_invulnerables)
        × (length g.session.keys + collator_selection_config.max_candidates
            ≤ aura_config.max_authorities)
        × All (λ x. balances_config.existential_deposit ≤ x.1) g.balances.balances
  preset_within_limits id {g} h =
      let preset = patch_of-IsPreset k names id h in
      let keys = length-map g.session.keys (λ x. x.0) in
      let same = ap length preset.consistent.accounts in
      let few : length g.session.keys ≤ 20 = omega (arith, keys, same, preset.few_collators) in
      (preset.few_collators, omega (arith, few), preset.consistent.alive)

-- The pallets of collators come in the order in which they are joined: the author of a block is
-- told to the pallet that chooses the collators, which manages the sessions, whose keys are those of
-- Aura. A collator is kicked after whole sessions, there is room for the collators that
-- are needed, and one slot of Aura is one slot of the relay chain for each block of the velocity.
collators_fit :
    All
      (λ handler.
        Increasing (authorship ∷ handler ∷ session ∷ authorship_config.find_author ∷ aura_ext ∷ []))
      authorship_config.event_handler
    × All (λ handler. handler ≡ session_config.session_manager) authorship_config.event_handler
    × (authorship_config.find_author ≡ timestamp_config.on_timestamp_set)
    × (collator_selection_config.kick_threshold % session_config.period ≡ 0)
    × (session_config.offset < session_config.period)
    × (collator_selection_config.min_eligible_collators
        ≤ collator_selection_config.max_invulnerables + collator_selection_config.max_candidates)
    × (aura_config.slot_duration * consensus_hook.block_processing_velocity
        ≡ consensus_hook.relay_chain_slot_duration_millis)
unfolding pallet_index
collators_fit = (
  ((omega arith, (omega arith, (omega arith, (omega arith, tt)))), tt),
  (refl, tt),
  refl,
  refl,
  omega arith,
  omega arith,
  refl,
)
