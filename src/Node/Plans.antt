-- ===== src/Node/Plans.antt =====
-- Plans: the specification of a start as a list of steps. Each step has its effects and may fail;
-- a plan is performed up to the first failure.
use mathlib.Core.List.{append_assoc}
use nonfungible_adapter_tuto.Base.{
  ◌≡◌, refl, ◌∙◌, inl, inr, arith, Option-cases, Option, none, some, List, [], ◌∷◌, ◌++◌, Result,
  ok, err, Stop, raised,
}
use nonfungible_adapter_tuto.Node.Effects.{Run, ◌>>=◌, ◌>>◌, pure, try_act}

pub record Step (F E : Type 0) : Type 0 where
  pub effects : List F
  pub failure : Option (Stop E)

abbrev pub failed : {D E A : Type 0} → (D → E) → Result D A → Option (Stop E)
failed from (ok _) = none
failed from (err d) = some (raised (from d))

abbrev pub result_of : {E : Type 0} → Option (Stop E) → Result (Stop E) (Unit {0})
result_of none = ok tt
result_of (some e) = err e

module _ {F E : Type 0} where
  -- A step with one effect, which fails as the call's result says, or not at all.
  abbrev pub call : {D A : Type 0} → (D → E) → F → Result D A → Step F E
  call from f r = record { effects = f ∷ []; failure = failed from r }

  abbrev pub sure : F → Step F E
  sure f = record { effects = f ∷ []; failure = none }

  unfoldable pub perform : List (Step F E) → Run F E (Unit {0})
  perform [] log = (ok tt, log)
  perform (s ∷ steps) log = elim s.failure [
    | none ↦ perform steps (log ++ s.effects)
    | some e ↦ (err e, log ++ s.effects)
  ]

  -- Performing two plans one after the other is performing them as one.
  pub perform-append :
      (xs ys : List (Step F E)) (log : List F)
      → perform (xs ++ ys) log ≡ (perform xs >> perform ys) log
  unfolding perform
  perform-append [] ys log = refl
  perform-append (x ∷ xs) ys log = ground (arith, perform-append xs ys (log ++ x.effects))

  -- A part that performs a plan and returns `v`, followed by one that performs another.
  pub bind-perform :
      {A : Type 0} (m : Run F E A) (f : A → Run F E (Unit {0})) (v : A) (xs ys : List (Step F E))
      → ((log : List F) → m log ≡ (perform xs >> pure v) log)
      → ((log : List F) → f v log ≡ perform ys log)
      → (log : List F) → (m >>= f) log ≡ perform (xs ++ ys) log
  bind-perform m f v xs ys p q log =
      ground (arith, perform-append xs ys log, p log, q (perform xs log).1)

  pub then-perform :
      (m k : Run F E (Unit {0})) (xs ys : List (Step F E))
      → ((log : List F) → m log ≡ perform xs log)
      → ((log : List F) → k log ≡ perform ys log)
      → (log : List F) → (m >> k) log ≡ perform (xs ++ ys) log
  then-perform m k xs ys p q log =
      ground (arith, perform-append xs ys log, p log, q (perform xs log).1)

  -- A call that can fail, followed by a part that performs a plan with the call's value.
  pub call-perform :
      {D A : Type 0} (from : D → E) (x : F) (r : Result D A) (f : A → Run F E (Unit {0}))
      (ys : List (Step F E))
      → ((a : A) → r ≡ ok a → (log : List F) → f a log ≡ perform ys log)
      → (log : List F) → (try_act from x r >>= f) log ≡ perform (call from x r ∷ ys) log
  unfolding perform
  call-perform from x (ok a) f ys q log = q a refl (log ++ x ∷ [])
  call-perform from x (err d) f ys q log = refl

  -- All effects of a plan, as if no step failed, and the first failure.
  abbrev pub all_effects : List (Step F E) → List F
  all_effects [] = []
  all_effects (s ∷ steps) = s.effects ++ all_effects steps

  abbrev pub first_failure : List (Step F E) → Option (Stop E)
  first_failure [] = none
  first_failure (s ∷ steps) = elim s.failure [ none ↦ first_failure steps | some e ↦ some e ]

  -- A plan ends with its first failure, if it has one.
  pub perform-result :
      (steps : List (Step F E)) (log : List F)
      → (perform steps log).0 ≡ result_of (first_failure steps)
  unfolding perform
  perform-result [] log = refl
  perform-result (s ∷ steps) log = ground (arith, perform-result steps (log ++ s.effects))

  -- Whatever happens, what was done is a beginning of the whole plan's effects; and it is all of
  -- them if nothing failed.
  pub perform-prefix :
      (steps : List (Step F E)) (log : List F)
      → (rest : List F) × ((perform steps log).1 ++ rest ≡ log ++ all_effects steps)
        × (first_failure steps ≡ none → rest ≡ [])
  unfolding perform
  perform-prefix [] log = ([], refl, λ _. refl)
  perform-prefix (s ∷ steps) log = elim (Option-cases s.failure) [
    | inl e ↦
        let (rest, same, all) = perform-prefix steps (log ++ s.effects) in
        (rest, rw (e, perform) (same ∙ append_assoc log s.effects (all_effects steps)), rw e all)
    | inr (f, e) ↦ (
      all_effects steps,
      rw (e, perform) (append_assoc log s.effects (all_effects steps)),
      λ h. ground arith,
    )
  ]
