-- ===== src/Node/Invariants.antt =====
-- Runs of Node/Effects.antt whose effects all have a property: a rule for each way to build a run.
use nonfungible_adapter_tuto.Base.{List, [], ◌∷◌, ◌++◌, All, All-append, Result, ok, err, Stop}
use nonfungible_adapter_tuto.Node.Effects.{Run, ◌>>=◌, act, try_act}

module _ {F : Type 0} (P : F → Type 0) where
  -- From a log of effects that have the property, the run makes one.
  pub record Keeps {E A : Type 0} (m : Run F E A) : Type 0 where
    pub kept : (log : List F) → All P log → All P (m log).1

  pub logged : (f : F) (log : List F) → P f → All P log → All P (log ++ f ∷ [])
  logged f log p l = All-append P log (f ∷ []) l (p, tt)

  pub act-Keeps : {E : Type 0} (f : F) → P f → Keeps {E = E} (act f)
  act-Keeps f p = record { kept = λ log l. logged f log p l }

  pub try_act-Keeps :
      {E D A : Type 0} (from : D → E) (f : F) (r : Result D A) → P f → Keeps (try_act from f r)
  try_act-Keeps from f (ok a) p = record { kept = λ log l. logged f log p l }
  try_act-Keeps from f (err d) p = record { kept = λ log l. logged f log p l }

  -- What follows a run that has ended with a result and a log.
  follow :
      {E A B : Type 0} (k : A → Run F E B) (r : Result (Stop E) A) (t : List F)
      → ((a : A) → Keeps (k a))
      → All P t
      → let (_, u) : Result (Stop E) B × List F = elim r [ ok a ↦ k a t | err e ↦ (err e, t) ] in
        All P u
  follow k (ok a) t h l = (h a).kept t l
  follow k (err e) t h l = l

  pub bind-Keeps :
      {E A B : Type 0} (m : Run F E A) (k : A → Run F E B)
      → Keeps m
      → ((a : A) → Keeps (k a))
      → Keeps (m >>= k)
  bind-Keeps m k hm hk = record { kept = λ log l. follow k (m log).0 (m log).1 hk (hm.kept log l) }
