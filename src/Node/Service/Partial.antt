-- ===== src/Node/Service/Partial.antt =====
-- Which effects building the parts of a node (`new_partial` of node/src/service.rs) leaves out.
use nonfungible_adapter_tuto.Base.{ℕ, ◌+◌, ◌≡◌, List, [], ◌∷◌, ◌++◌, arith}
use nonfungible_adapter_tuto.Node.Effects.{
  Effect, build_network, build_relay_chain_interface, start_relay_chain_tasks, spawn_essential_aura,
  run_command,
}
use nonfungible_adapter_tuto.Node.Service.{
  Configuration, Host, filter_endpoints, connect_telemetry, spawn_telemetry, new_partial,
}

-- How many entries of a log are of a kind.
abbrev pub count : (Effect → ℕ) → List Effect → ℕ
count kind [] = 0
count kind (x ∷ xs) = kind x + count kind xs

pub count-snoc :
    (kind : Effect → ℕ) (xs : List Effect) (x : Effect)
    → count kind (xs ++ x ∷ []) ≡ count kind xs + kind x
count-snoc kind [] x = omega arith
count-snoc kind (y ∷ ys) x = omega (arith, count-snoc kind ys x)

-- What joins the network, follows the relay chain or authors blocks.
abbrev pub is_started : Effect → ℕ
is_started (build_network _ _) = 1
is_started build_relay_chain_interface = 1
is_started (start_relay_chain_tasks _ _ _) = 1
is_started (spawn_essential_aura _) = 1
is_started _ = 0

abbrev pub is_command : Effect → ℕ
is_command (run_command _) = 1
is_command _ = 0

module _ {E HwBench Key : Type 0} (host : Host E HwBench Key) (config : Configuration) where
  pub count-new_partial :
      (log : List Effect)
      → let t = (new_partial host config log).1 in
        (count is_started t ≡ count is_started log) × (count is_command t ≡ count is_command log)
  unfolding new_partial filter_endpoints connect_telemetry spawn_telemetry
  count-new_partial log = grind (arith, count-snoc)
