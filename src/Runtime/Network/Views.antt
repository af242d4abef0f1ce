-- ===== src/Runtime/Network/Views.antt =====
-- What one parachain sees of a history of the network of Runtime/Network.antt is a history of
-- the chain of Runtime/Chain.antt.
use package.native.Mathlib.Decide.{ℕ_discrete}
use mathlib.Core.Path.{subst}
use nonfungible_adapter_tuto.Base.{
  ℕ, ◌≡◌, sym, List, [], ◌∷◌, ◌++◌, only_if, only_if-yes, only_if-no, choose-yes, update-other,
}
use nonfungible_adapter_tuto.Sdk.Numbers.{Numbers}
use nonfungible_adapter_tuto.Runtime.Chain.{ChainInput, ChainState, Step, Steps}
use nonfungible_adapter_tuto.Runtime.Network.{
  NetworkSdk, chain, Network, Happening, at, sends, happen, send, Moves, done, next,
}

module _ {n : Numbers} {R : Type 0} (net : NetworkSdk n R) where
  open net use {sdk, queues}
  open sdk use {origins}

  abbrev Input : Type 0
  Input = ChainInput origins.accounts.AccountId origins.RuntimeOrigin queues.Blob

  -- The inputs of one parachain.
  abbrev pub seen : ℕ → Happening net → List Input
  seen j (at i x) = only_if (ℕ_discrete j i) x
  seen j (sends _ _ _) = []

  abbrev pub view : ℕ → List (Happening net) → List Input
  view j [] = []
  view j (h ∷ hs) = seen j h ++ view j hs

  steps_after :
      (j i : ℕ) (x : Input) (s : Network net)
      (u v : ChainState origins.accounts.AccountId queues.Store queues.Blob) (is : List Input)
      → Step (chain net i) (s.chains i) x u
      → j ≡ i
      → Steps (chain net j) u is v
      → Steps (chain net j) (s.chains j) (x ∷ is) v
  steps_after j i x s u v is step e rest =
      Steps.next (subst (λ k. Step (chain net k) (s.chains k) x u) (sym e) step) rest

  pub moves_steps :
      {s t : Network net} {hs : List (Happening net)} (j : ℕ)
      → Moves net s hs t
      → Steps (chain net j) (s.chains j) (view j hs) (t.chains j)
  moves_steps j done = Steps.done
  moves_steps {s} {t} j (next {hs} (happen i x u _ step) rest) =
      let more = moves_steps j rest in
      elim (ℕ_discrete j i) [
        | yes e ↦ rw (only_if-yes (ℕ_discrete j i) x e) (
            steps_after j i x s u _ _ step e
              (rw (choose-yes (ℕ_discrete j i) u (s.chains j) e) at more))
        | no h ↦ rw (only_if-no (ℕ_discrete j i) x h) (rw (update-other s.chains i u j h) at more)
      ]
  moves_steps j (next (send i d m c _) rest) = moves_steps j rest
