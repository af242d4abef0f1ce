-- ===== src/Runtime/Chain/Overweight.antt =====
-- What becomes of the overweight messages that the message queue of runtime/src/configs/mod.rs sets aside.
use nonfungible_adapter_tuto.Base.{List, [], ◌∷◌, ◌++◌}
use mathlib.Core.List.{Perm}
use mathlib.Core.List.Perm
use nonfungible_adapter_tuto.Sdk.Numbers.{Numbers}
use nonfungible_adapter_tuto.Runtime.Queues.{AggregateMessageOrigin}
use nonfungible_adapter_tuto.Runtime.Chain.{ChainSdk, Input, set_aside, executed_overweight, reaped}

module _ {n : Numbers} {R : Type 0} (chain : ChainSdk n R) where
  open chain use {queues}
  open queues use {Blob}

  abbrev Waiting : Type 0
  Waiting = AggregateMessageOrigin × Blob

  -- What an input sets aside, and what it clears of what is set aside.
  abbrev pub put : Input chain → List Waiting
  put (set_aside q b) = (q, b) ∷ []
  put _ = []

  abbrev pub cleared : Input chain → List Waiting
  cleared (executed_overweight q b _) = (q, b) ∷ []
  cleared (reaped q b) = (q, b) ∷ []
  cleared _ = []

  abbrev pub all_put : List (Input chain) → List Waiting
  all_put [] = []
  all_put (i ∷ is) = put i ++ all_put is

  abbrev pub all_cleared : List (Input chain) → List Waiting
  all_cleared [] = []
  all_cleared (i ∷ is) = cleared i ++ all_cleared is
