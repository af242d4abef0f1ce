-- ===== src/Runtime/Tests/Locations.antt =====
-- The SDK's converters, checks and adapters of runtime/src/configs as functions on concrete locations:
-- accounts are numbers, and the networks of accounts are not told apart.
use package.native.Mathlib.Decide.{ℕ_discrete}
use nonfungible_adapter_tuto.Base.{
  ℕ, ◌+◌, ◌≡◌, ◌↔◌, refl, sym, ap, ◌∙◌, inl, inr, Bool, true, false, Option, none, some, List, [],
  ◌∷◌, first_some,
}
use nonfungible_adapter_tuto.Sdk.Xcm.{Junction, parachain, Location, native}
use nonfungible_adapter_tuto.Runtime.Xcm.Accounts.{AccountsApi, parent, sibling}

pub same : Discrete (Location ℕ)
same = hlevel (ℕ_discrete)

-- A value where a proposition holds.
abbrev pub only : {P A : Type 0} → Dec P → A → Option A
only (yes _) a = some a
only (no _) a = none

pub only_iff : {P A : Type 0} (d : Dec P) (a b : A) → (only d a ≡ some b) ↔ (P × (b ≡ a))
only_iff (yes p) a b = (λ h. (p, cc), λ (_, e). cc)
only_iff (no n) a b = (λ h. absurd (cc), λ (p, _). absurd (n p))

abbrev pub holds : {P : Type 0} → Dec P → Bool
holds (yes _) = true
holds (no _) = false

pub holds_iff : {P : Type 0} (d : Dec P) → (holds d ≡ true) ↔ P
holds_iff (yes p) = (λ h. p, λ _. refl)
holds_iff (no n) = (λ h. absurd (cc), λ p. absurd (n p))

-- The parachain that a location names, and the account, if its interior is a single junction.
abbrev pub para_in : List (Junction ℕ) → ℕ
para_in (parachain id ∷ []) = id
para_in _ = 0

abbrev pub account_in : List (Junction ℕ) → ℕ
account_in (Junction.other a ∷ []) = a
account_in _ = 0

abbrev pub local_account : ℕ → Location ℕ
local_account a = record { parents = 0; interior = Junction.other a ∷ [] }

abbrev pub sibling_id : Location ℕ → Option ℕ
sibling_id l = only (same l (sibling (para_in l.interior))) (para_in l.interior)

pub sibling_id_iff : (l : Location ℕ) (id : ℕ) → (sibling_id l ≡ some id) ↔ (l ≡ sibling id)
sibling_id_iff l id =
    let named = only_iff (same l (sibling (para_in l.interior))) (para_in l.interior) id in
    (
      λ h. let (p, q) = named.0 h in p ∙ ap sibling (sym q),
      λ h.
          let e : para_in l.interior ≡ id = ap (λ (x : Location ℕ). para_in x.interior) h in
          named.1 (h ∙ ap sibling (sym e), sym e),
    )

abbrev pub account_id : Location ℕ → Option ℕ
account_id l = only (same l (local_account (account_in l.interior))) (account_in l.interior)

pub account_id_iff : (l : Location ℕ) (a : ℕ) → (account_id l ≡ some a) ↔ (l ≡ local_account a)
account_id_iff l a =
    let named =
      only_iff (same l (local_account (account_in l.interior))) (account_in l.interior) a in
    (
      λ h. let (p, q) = named.0 h in p ∙ ap local_account (sym q),
      λ h.
          let e : account_in l.interior ≡ a = ap (λ (x : Location ℕ). account_in x.interior) h in
          named.1 (h ∙ ap local_account (sym e), sym e),
    )

-- An option with its value changed.
abbrev pub change : {A B : Type 0} → (A → B) → Option A → Option B
change f none = none
change f (some a) = some (f a)

pub change_iff :
    {A B : Type 0} (f : A → B) (o : Option A) (b : B)
    → (change f o ≡ some b) ↔ ((a : A) × (o ≡ some a) × (b ≡ f a))
change_iff f none b = (λ h. absurd (cc), λ (a, e, _). absurd (cc))
change_iff f (some x) b = (λ h. (x, refl, cc), λ (a, e, q). cc)

-- Converters in order.
abbrev pub in_order : {A : Type 0} → List (Location ℕ → Option A) → Location ℕ → Option A
in_order [] l = none
in_order (c ∷ cs) l = first_some (c l) (in_order cs l)

-- The relay chain has account 0, and parachain `id` account `id + 1_000_000`.
abbrev pub accounts : AccountsApi ℕ
accounts = record {
  AccountId = ℕ;
  NetworkId = Unit {0};
  Converter = Location ℕ → Option ℕ;
  convert = λ c. c;
  account_id32 = λ network a. Junction.other a;
  parent_is_preset = λ l. only (same l parent) 0;
  sibling_parachain_converts_via = λ l. change (λ id. id + 1_000_000) (sibling_id l);
  account_id32_aliases = λ network l. account_id l;
  tuple = in_order;
  parent_account = 0;
  sibling_account = λ id. id + 1_000_000;
  convert-parent_is_preset = λ l a. only_iff (same l parent) 0 a;
  convert-sibling_parachain = λ l a.
      let c = change_iff (λ id. id + 1_000_000) (sibling_id l) a in
      (
        λ h. let (id, e, q) = c.0 h in (id, (sibling_id_iff l id).0 e, q),
        λ (id, e, q). c.1 (id, (sibling_id_iff l id).1 e, q),
      );
  convert-account_id32_aliases = λ network l a.
      let i = account_id_iff l a in
      (λ h. inl (i.0 h), λ h. elim h [ inl e ↦ i.1 e | inr e ↦ i.1 e ]);
  convert-tuple_nil = λ l. refl;
  convert-tuple_cons = λ c cs l. refl;
}
