-- ===== src/Node/Rpc.antt =====
-- node/src/rpc.rs: the RPC extensions of the node, two modules of the SDK merged into an empty one.
-- What `jsonrpsee` documents of a module is the record `RpcApi`.
use Prim.Native.String.{String}
use mathlib.Core.List.{Memᴰ}
use mathlib.Core.Path.{subst}
use nonfungible_adapter_tuto.Base.{◌≡◌, ap, ◌∙◌, List, [], ◌++◌, Result, ok, err}

-- A module is known by the names of its methods. Merging adds them, and fails if a name is taken.
pub record RpcApi (E : Type 0) : Type 1 where
  pub RpcModule : Type 0
  pub methods : RpcModule → List String
  pub empty : RpcModule
  pub merge : RpcModule → RpcModule → Result E RpcModule
  -- `System::new(..).into_rpc()` and `TransactionPayment::new(..).into_rpc()`.
  pub system : RpcModule
  pub transaction_payment : RpcModule
  pub methods-empty : methods empty ≡ []
  pub merge_disjoint :
      (a b : RpcModule)
      → ((name : String) → Memᴰ name (methods a) → ¬ (Memᴰ name (methods b)))
      → (c : RpcModule) × (merge a b ≡ ok c) × (methods c ≡ methods a ++ methods b)

module _ {E : Type 0} (api : RpcApi E) where
  open api use {RpcModule, methods, empty, merge, system, transaction_payment}

  -- `?` on the first merge, and the second one.
  merge_next : Result E RpcModule → Result E RpcModule
  merge_next (ok module_so_far) = merge module_so_far transaction_payment
  merge_next (err e) = err e

  pub create_full : Result E RpcModule
  unfolding merge_next
  create_full = merge_next (merge empty system)

  -- If the two modules of the SDK share no method name, the extensions exist and answer exactly the
  -- methods of the one and of the other.
  create_full-methods :
      ((name : String) → Memᴰ name (methods system) → ¬ (Memᴰ name (methods transaction_payment)))
      → (c : RpcModule) × (create_full ≡ ok c)
        × (methods c ≡ methods system ++ methods transaction_payment)
  unfolding create_full merge_next
  create_full-methods apart =
      let nothing : (name : String) → ¬ (Memᴰ name (methods empty)) =
        λ name m. elim (subst (Memᴰ name) api.methods-empty m) [ ] in
      let (a, e, f) = api.merge_disjoint empty system (λ name m _. nothing name m) in
      let same : methods a ≡ methods system =
        f ∙ ap (λ xs. xs ++ methods system) api.methods-empty in
      let (c, g, h) =
        api.merge_disjoint a transaction_payment
          (λ name m. apart name (subst (Memᴰ name) same m)) in
      (c, ap merge_next e ∙ g, h ∙ ap (λ xs. xs ++ methods transaction_payment) same)
