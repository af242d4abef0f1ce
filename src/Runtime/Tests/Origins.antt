-- ===== src/Runtime/Tests/Origins.antt =====
-- The origins that messages are dispatched with, and who may change the collators, on concrete
-- locations.
use nonfungible_adapter_tuto.Base.{
  ℕ, ◌≡◌, ◌↔◌, ◌⊎◌, refl, inl, inr, Bool, true, false, ◌||◌, Option, none, some, List, [], ◌∷◌,
  first_some, arith,
}
use nonfungible_adapter_tuto.Sdk.Xcm.{
  plurality, Location, OriginKind, native, sovereign_account, xcm,
}
use nonfungible_adapter_tuto.Runtime.Xcm.Accounts.{parent, sibling, location_to_account_id}
use nonfungible_adapter_tuto.Runtime.Xcm.Origins.{
  OriginsApi, xcm_origin_to_transact_dispatch_origin,
}
use nonfungible_adapter_tuto.Runtime.Xcm.Origins.Dispatch.{DispatchedAs, transact_origin_iff}
use nonfungible_adapter_tuto.Runtime.Xcm.LocalOrigins.{
  LocalOriginsApi, local_origin_to_location, local_origin-transact_origin,
}
use nonfungible_adapter_tuto.Runtime.Governance.{ChecksApi}
use nonfungible_adapter_tuto.Runtime.Tests.Locations.{
  local_account, same, only, only_iff, holds, holds_iff, change, change_iff, sibling_id,
  sibling_id_iff, account_id, account_id_iff, accounts,
}

pub data Origin : Type 0 where
  root relay : Origin
  signed sibling_para : ℕ → Origin
  xcm_origin : Location ℕ → Origin

-- A converter for one kind.
abbrev pub for_kind : {P A : Type 0} → Dec P → Option A → Option A
for_kind (yes _) o = o
for_kind (no _) o = none

pub for_kind_iff :
    {P A : Type 0} (d : Dec P) (o : Option A) (a : A) → (for_kind d o ≡ some a) ↔ (P × (o ≡ some a))
for_kind_iff (yes p) o a = (λ h. (p, h), λ (_, h). h)
for_kind_iff (no n) o a = (λ h. absurd (cc), λ (p, _). absurd (n p))

pub kind_discrete : Discrete OriginKind
kind_discrete = hlevel

abbrev pub in_order :
    List (Location ℕ → OriginKind → Option Origin) → Location ℕ → OriginKind → Option Origin
in_order [] l k = none
in_order (c ∷ cs) l k = first_some (c l k) (in_order cs l k)

pub kinded_iff :
    {A : Type 0} (k k' : OriginKind) (f : A → Origin) (o : Option A) (b : Origin)
    → (for_kind (kind_discrete k k') (change f o) ≡ some b)
      ↔ ((k ≡ k') × (a : A) × (o ≡ some a) × (b ≡ f a))
kinded_iff k k' f o b =
    let d = for_kind_iff (kind_discrete k k') (change f o) b in
    let c = change_iff f o b in
    (
      λ h. let (p, q) = d.0 h in let (a, e, r) = c.0 q in (p, a, e, r),
      λ (p, a, e, r). d.1 (p, c.1 (a, e, r)),
    )

-- The two sides of a sum that say the same.
pub either : {A : Type 0} → A ⊎ A → A
either (inl a) = a
either (inr a) = a

abbrev pub origins : OriginsApi ℕ
origins = record {
  accounts = accounts;
  RuntimeOrigin = Origin;
  root = Origin.root;
  signed = Origin.signed;
  relay = Origin.relay;
  sibling_para = Origin.sibling_para;
  xcm_origin = Origin.xcm_origin;
  signed_differs = λ a h. cc;
  relay_differs = λ h. cc;
  sibling_para_differs = λ id h. cc;
  xcm_origin_differs = λ l h. cc;
  signed-xcm_origin = λ a l h. cc;
  relay-xcm_origin = λ l h. cc;
  sibling_para-xcm_origin = λ id l h. cc;
  xcm_origin_injective = λ l m h. cc;
  OriginConverter = Location ℕ → OriginKind → Option Origin;
  convert_origin = λ c. c;
  sovereign_signed_via_location =
      λ c l k. for_kind (kind_discrete k sovereign_account) (change Origin.signed (c l));
  relay_chain_as_native = λ r l k. for_kind (kind_discrete k native) (only (same l parent) r);
  sibling_parachain_as_native =
      λ l k. for_kind (kind_discrete k native) (change Origin.sibling_para (sibling_id l));
  signed_account_id32_as_native =
      λ network l k. for_kind (kind_discrete k native) (change Origin.signed (account_id l));
  xcm_passthrough = λ l k. for_kind (kind_discrete k xcm) (some (Origin.xcm_origin l));
  converters = in_order;
  convert-sovereign_signed = λ c l k o. kinded_iff k sovereign_account Origin.signed (c l) o;
  convert-relay_chain = λ r l k o.
      let d = for_kind_iff (kind_discrete k native) (only (same l parent) r) o in
      let c = only_iff (same l parent) r o in
      (
        λ h. let (p, q) = d.0 h in let (e, own) = c.0 q in (p, e, own),
        λ (p, e, own). d.1 (p, c.1 (e, own)),
      );
  convert-sibling_parachain = λ l k o.
      let d = kinded_iff k native Origin.sibling_para (sibling_id l) o in
      (
        λ h. let (p, id, e, q) = d.0 h in (p, id, (sibling_id_iff l id).0 e, q),
        λ (p, id, e, q). d.1 (p, id, (sibling_id_iff l id).1 e, q),
      );
  convert-signed_account_id32 = λ network l k o.
      let d = kinded_iff k native Origin.signed (account_id l) o in
      (
        λ h. let (p, a, e, q) = d.0 h in (p, a, inl ((account_id_iff l a).0 e), q),
        λ (p, a, e, q). d.1 (p, a, (account_id_iff l a).1 (either e), q),
      );
  convert-xcm_passthrough = λ l k o.
      let d = for_kind_iff (kind_discrete k xcm) (some (Origin.xcm_origin l)) o in
      (λ h. let (p, q) = d.0 h in (p, cc), λ (p, q). d.1 (p, cc));
  convert-converters_nil = λ l k. refl;
  convert-converters_cons = λ c cs l k. refl;
}

abbrev is_root : Origin → Bool
is_root Origin.root = true
is_root _ = false

abbrev is_signed : Origin → Bool
is_signed (Origin.signed a) = true
is_signed _ = false

abbrev from_location : (Location ℕ → Bool) → Origin → Bool
from_location f (Origin.xcm_origin l) = f l
from_location f _ = false

pub from_location_iff :
    (f : Location ℕ → Bool) (o : Origin)
    → (from_location f o ≡ true) ↔ ((l : Location ℕ) × (o ≡ Origin.xcm_origin l) × (f l ≡ true))
from_location_iff f o = (λ h. ground arith, λ (l, e, h). rw e h)

-- The voice of a body has number 0.
abbrev pub checks : ChecksApi origins
checks = record {
  Check = Origin → Bool;
  passes = λ c. c;
  Filter = Location ℕ → Bool;
  contains = λ f. f;
  voice = 0;
  ensure_root = is_root;
  ensure_xcm = from_location;
  is_voice_of_body = λ prefix body l.
      holds (same l (record { parents = prefix.parents; interior = plurality body 0 ∷ [] }));
  either_of_diverse = λ a b o. a o || b o;
  ensure_signed = is_signed;
  as_ensure_origin_with_arg = λ c. c;
  passes-ensure_root = λ o. ground arith;
  passes-ensure_xcm = from_location_iff;
  contains-is_voice_of_body = λ parents body l.
      holds_iff (same l (record { parents = parents; interior = plurality body 0 ∷ [] }));
  passes-either_of_diverse = λ a b o. refl;
  passes-signed = λ a. refl;
  passes-signed_relay = refl;
  passes-signed_sibling_para = λ id. refl;
  passes-signed_xcm_origin = λ l. refl;
  passes-as_ensure_origin_with_arg = λ c o. refl;
}

transact_origin_iff_example :
    (xcm_origin_to_transact_dispatch_origin origins (sibling 1001) native
      ≡ some (Origin.sibling_para 1001))
    ↔ DispatchedAs origins (sibling 1001) native (Origin.sibling_para 1001)
transact_origin_iff_example =
    transact_origin_iff origins (sibling 1001) native (Origin.sibling_para 1001)

abbrev pub place_of : Origin → Option (Location ℕ)
place_of (Origin.signed a) = some (local_account a)
place_of _ = none

pub place_of_iff :
    (o : Origin) (l : Location ℕ)
    → (place_of o ≡ some l) ↔ ((a : ℕ) × (o ≡ Origin.signed a) × (l ≡ local_account a))
place_of_iff (Origin.signed b) l = (λ h. (b, refl, cc), λ (a, e, q). let e' : b ≡ a = cc in cc)
place_of_iff Origin.root l = (λ h. absurd (cc), λ (a, e, q). absurd (cc))
place_of_iff Origin.relay l = (λ h. absurd (cc), λ (a, e, q). absurd (cc))
place_of_iff (Origin.sibling_para i) l = (λ h. absurd (cc), λ (a, e, q). absurd (cc))
place_of_iff (Origin.xcm_origin m) l = (λ h. absurd (cc), λ (a, e, q). absurd (cc))

-- Root is the chain itself.
abbrev pub chain_itself : Origin → Option (Location ℕ)
chain_itself Origin.root = some (record { parents = 0; interior = [] })
chain_itself _ = none

pub ensured :
    (o : Origin) (p : Option (Location ℕ)) (l : Location ℕ)
    → (first_some p (chain_itself o) ≡ some l) ↔ (
        (p ≡ some l)
        ⊎ ((p ≡ none) × (o ≡ Origin.root) × (l ≡ record { parents = 0; interior = [] })))
ensured o (some m) l = (λ h. inl h, λ h. elim h [ inl e ↦ e | inr (e, _, _) ↦ absurd (cc) ])
ensured Origin.root none l =
    (λ h. inr (refl, refl, cc), λ h. elim h [ inl e ↦ absurd (cc) | inr (_, _, e) ↦ cc ])
ensured Origin.relay none l =
    (λ h. absurd (cc), λ h. elim h [ inl e ↦ absurd (cc) | inr (_, e, _) ↦ absurd (cc) ])
ensured (Origin.signed _) none l =
    (λ h. absurd (cc), λ h. elim h [ inl e ↦ absurd (cc) | inr (_, e, _) ↦ absurd (cc) ])
ensured (Origin.sibling_para _) none l =
    (λ h. absurd (cc), λ h. elim h [ inl e ↦ absurd (cc) | inr (_, e, _) ↦ absurd (cc) ])
ensured (Origin.xcm_origin _) none l =
    (λ h. absurd (cc), λ h. elim h [ inl e ↦ absurd (cc) | inr (_, e, _) ↦ absurd (cc) ])

abbrev pub locals : LocalOriginsApi origins
locals = record {
  Converter = Origin → Option (Location ℕ);
  try_convert = λ c. c;
  signed_to_account_id32 = λ network. place_of;
  convert-signed_to_account_id32 = λ network. place_of_iff;
  Ensure = Origin → Option (Location ℕ);
  try_origin = λ e. e;
  ensure_xcm_origin = λ c o. first_some (c o) (chain_itself o);
  try-ensure_xcm_origin = λ c o l. ensured o (c o) l;
}

abbrev pub seventh : Location ℕ
seventh = local_account 7

pub seventh_placed :
    locals.try_convert (local_origin_to_location origins locals) (Origin.signed 7) ≡ some seventh
unfolding local_origin_to_location
seventh_placed = refl

seventh_comes_back :
    (a : ℕ) × (Origin.signed 7 ≡ Origin.signed a)
    × (location_to_account_id accounts seventh ≡ some a)
    × (xcm_origin_to_transact_dispatch_origin origins seventh native ≡ some (Origin.signed 7))
    × (xcm_origin_to_transact_dispatch_origin origins seventh sovereign_account
        ≡ some (Origin.signed 7))
seventh_comes_back =
    local_origin-transact_origin origins locals (Origin.signed 7) seventh seventh_placed
