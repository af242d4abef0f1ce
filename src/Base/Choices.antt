-- ===== src/Base/Choices.antt =====
-- A list of at most one item, and a family changed at one index, by a decision.
use package.native.Mathlib.Decide.{ℕ_discrete}
use Prim.Native.Nat.{ℕ}
use mathlib.Core.Path.{◌≡◌, refl}
use mathlib.Core.Logic.{◌≢◌}
use mathlib.Core.List.{List, [], ◌∷◌}

module _ {ℓ κ} {P : Type ℓ} {A : Type κ} where
  abbrev pub only_if : Dec P → A → List A
  only_if (yes _) a = a ∷ []
  only_if (no _) a = []

  pub only_if-yes : (d : Dec P) (a : A) → P → only_if d a ≡ a ∷ []
  only_if-yes (yes _) a p = refl
  only_if-yes (no h) a p = absurd (h p)

  pub only_if-no : (d : Dec P) (a : A) → ¬ P → only_if d a ≡ []
  only_if-no (yes p) a h = absurd (h p)
  only_if-no (no _) a h = refl

  abbrev pub choose : Dec P → A → A → A
  choose (yes _) a b = a
  choose (no _) a b = b

  pub choose-yes : (d : Dec P) (a b : A) → P → choose d a b ≡ a
  choose-yes (yes _) a b p = refl
  choose-yes (no h) a b p = absurd (h p)

  pub choose-no : (d : Dec P) (a b : A) → ¬ P → choose d a b ≡ b
  choose-no (yes p) a b h = absurd (h p)
  choose-no (no _) a b h = refl

module _ {ℓ} {A : Type ℓ} where
  abbrev pub update : (ℕ → A) → ℕ → A → ℕ → A
  update f i a j = choose (ℕ_discrete j i) a (f j)

  pub update-other : (f : ℕ → A) (i : ℕ) (a : A) (j : ℕ) → j ≢ i → update f i a j ≡ f j
  update-other f i a j h = choose-no (ℕ_discrete j i) a (f j) h
