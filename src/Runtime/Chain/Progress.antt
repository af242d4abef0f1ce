-- ===== src/Runtime/Chain/Progress.antt =====
-- That the messages of the relay chain can always be taken off their queue, whatever the pauses of the queues of
-- runtime/src/configs/mod.rs.
use nonfungible_adapter_tuto.Base.{List, [], ◌∷◌}
use nonfungible_adapter_tuto.Sdk.Numbers.{Numbers}
use nonfungible_adapter_tuto.Runtime.Chain.{Merge, neither, from_first}

pub Merge-nil : {A : Type 0} (xs : List A) → Merge xs [] xs
Merge-nil [] = neither
Merge-nil (x ∷ xs) = from_first (Merge-nil xs)
