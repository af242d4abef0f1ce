-- ===== src/Runtime/Tests/Executor.antt =====
-- Routes and messages of runtime/src/configs/xcm_config.rs on concrete locations.
use Prim.Native.String.{String}
use nonfungible_adapter_tuto.Base.{
  ℕ, ◌+◌, ◌≡◌, ◌≢◌, ◌↔◌, ◌⊎◌, refl, ap, eq-none, inl, inr, true, false, Option, none, some, List,
  [], ◌∷◌, Result, ok, err,
}
use nonfungible_adapter_tuto.Sdk.Samples.{numbers}
use nonfungible_adapter_tuto.Sdk.Xcm.{Location, xcm}
use nonfungible_adapter_tuto.Runtime.Xcm.Accounts.{parent, sibling}
use nonfungible_adapter_tuto.Runtime.Xcm.Origins.Dispatch.{transact_origin_iff}
use nonfungible_adapter_tuto.Runtime.Xcm.Router.{
  RouterApi, SendError, not_applicable, Channel, ump, xcmp, try_next, xcm_router,
  xcm_router_destinations,
}
use nonfungible_adapter_tuto.Runtime.Xcm.Barrier.{barrier, admits-barrier_iff}
use nonfungible_adapter_tuto.Runtime.Xcm.Executor.{
  XcmSdk, universal_location, xcm_config, pallet_xcm_config, collators_changed_at_a_price,
}
use nonfungible_adapter_tuto.Runtime.Governance.{
  staking_admin, collator_selection_update_origin, collator_selection_update_origin_iff,
}
use nonfungible_adapter_tuto.Runtime.Configs.{xcmp_queue_config, nfts_config}
use nonfungible_adapter_tuto.Runtime.Transact.{ActsAs}
use nonfungible_adapter_tuto.Runtime.Privileges.{privileged_transacts}
use nonfungible_adapter_tuto.Runtime.Tests.{evaluator}
use nonfungible_adapter_tuto.Runtime.Tests.Trading.{trade}
use nonfungible_adapter_tuto.Runtime.Tests.Locations.{
  same, only, only_iff, sibling_id, sibling_id_iff,
}
use nonfungible_adapter_tuto.Runtime.Tests.Origins.{locals, Origin, origins, checks}
use nonfungible_adapter_tuto.Runtime.Tests.Messages.{barrier_api, Message}
use nonfungible_adapter_tuto.Runtime.Tests.Assets.{assets}

-- A message to the relay chain or to a parachain is sent; its topic is the next number.
abbrev pub deliver : Option ℕ → Result (SendError String) Channel
deliver none = err not_applicable
deliver (some _) = ok ump

abbrev pub up : Location ℕ → ℕ → Result (SendError String) Channel
up d m = deliver (only (same d parent) 0)

pub up_lem :
    (d : Location ℕ) (m : ℕ)
    → ((up d m ≡ err not_applicable) ↔ (d ≢ parent))
      × ((c : Channel) → up d m ≡ ok c → (d ≡ parent) × (c ≡ ump))
up_lem d m = routed (d ≡ parent) (only {A = ℕ} (same d parent) 0) (only_iff (same d parent) 0)
  where
    routed :
        (P : Type 0) (o : Option ℕ)
        → ((b : ℕ) → (o ≡ some b) ↔ (P × (b ≡ 0)))
        → ((deliver o ≡ err not_applicable) ↔ (¬ P))
          × ((c : Channel) → deliver o ≡ ok c → P × (c ≡ ump))
    routed P none named =
        ((λ _ p. let e = (named 0).1 (p, refl) in cc, λ _. refl), λ c h. absurd (cc))
    routed P (some b) named = (
      (λ h. absurd (cc), λ h. absurd (h ((named b).0 refl).0)),
      λ c h. (((named b).0 refl).0, cc),
    )

abbrev pub to_sibling : Option ℕ → Result (SendError String) Channel
to_sibling none = err not_applicable
to_sibling (some id) = ok (xcmp id)

abbrev pub across : Location ℕ → ℕ → Result (SendError String) Channel
across d m = to_sibling (sibling_id d)

pub across_lem :
    (d : Location ℕ) (m : ℕ)
    → ((across d m ≡ err not_applicable) ↔ ((id : ℕ) → d ≢ sibling id))
      × ((c : Channel) → across d m ≡ ok c → (id : ℕ) × (d ≡ sibling id) × (c ≡ xcmp id))
across_lem d m = routed (λ id. d ≡ sibling id) (sibling_id d) (sibling_id_iff d)
  where
    routed :
        (P : ℕ → Type 0) (o : Option ℕ)
        → ((id : ℕ) → (o ≡ some id) ↔ P id)
        → let r = to_sibling o in
          ((r ≡ err not_applicable) ↔ ((id : ℕ) → ¬ (P id)))
          × ((c : Channel) → r ≡ ok c → (id : ℕ) × P id × (c ≡ xcmp id))
    routed P none named = ((λ _ id p. let e = (named id).1 p in cc, λ _. refl), λ c h. absurd (cc))
    routed P (some id) named = (
      (λ h. absurd (cc), λ h. absurd (h id ((named id).0 refl))),
      λ c h. (id, (named id).0 refl, cc),
    )

abbrev pub routed_in_order :
    List (Location ℕ → ℕ → Result (SendError String) Channel)
    → Location ℕ
    → ℕ
    → Result (SendError String) Channel
routed_in_order [] d m = err not_applicable
routed_in_order (r ∷ rs) d m = try_next (r d m) (routed_in_order rs d m)

abbrev pub router : RouterApi ℕ
router = record {
  Message = ℕ;
  E = String;
  Router = Location ℕ → ℕ → Result (SendError String) Channel;
  send = λ r. r;
  parent_as_ump = up;
  xcmp_queue = across;
  with_unique_topic = λ r d m. r d (m + 1);
  with_topic = λ m. m + 1;
  tuple = routed_in_order;
  send-parent_as_ump = up_lem;
  send-xcmp_queue = across_lem;
  send-with_unique_topic = λ r d m. refl;
  send-tuple_nil = λ d m. refl;
  send-tuple_cons = λ r rs d m. refl;
}

routes_of_parent :
    ((c : Channel)
      → router.send (xcm_router router) parent 4 ≡ ok c
      → ((parent {R = ℕ} ≡ parent) × (c ≡ ump))
        ⊎ ((id : ℕ) × (parent {R = ℕ} ≡ sibling id) × (c ≡ xcmp id)))
    × ((router.send (xcm_router router) parent 4 ≡ err not_applicable)
        ↔ ((parent {R = ℕ} ≢ parent) × ((id : ℕ) → parent {R = ℕ} ≢ sibling id)))
routes_of_parent = xcm_router_destinations router parent 4

-- The message is sent up.
sent_up : router.send (xcm_router router) parent 4 ≡ ok ump
unfolding xcm_router
sent_up =
    ap (λ o. try_next (deliver o) (routed_in_order (across ∷ []) parent 5))
      ((only_iff (same parent parent) 0 0).1 (refl, refl))

-- So is one to a sibling across.
pub sent_across : router.send (xcm_router router) (sibling 1000) 4 ≡ ok (xcmp 1000)
unfolding xcm_router
sent_across =
    let other =
      eq-none (only {A = ℕ} (same (sibling 1000) parent) 0) _
        (λ x. (only_iff (same (sibling 1000) parent) 0 x).0) (λ x q. let e = q.0 in absurd (cc)) in
    rw other (
      ap (λ o. try_next (to_sibling o) (err not_applicable))
        ((sibling_id_iff (sibling 1000) 1000).1 refl))

abbrev pub sdk : XcmSdk numbers ℕ
sdk = record {
  origins = origins;
  assets = assets;
  router = router;
  gates = barrier_api;
  checks = checks;
  locals = locals;
  evaluator = evaluator;
  trade = trade Message (λ m. 3);
}

-- The staking admin buys execution.
abbrev admin : Message
admin = record {
  from = staking_admin origins checks;
  credit = false;
  buys = true;
  unpaid = false;
  to_relay_chain = false;
}

admin_enters : barrier_api.admits (barrier barrier_api (universal_location 1000)) admin ≡ true
admin_enters =
    (admits-barrier_iff barrier_api (universal_location 1000) admin).1
      (refl, inr (admin, refl, inl refl))

admin_pays : (admin.credit ≡ true) ⊎ (admin.buys ≡ true)
admin_pays =
    collators_changed_at_a_price sdk 1000 admin admin xcm
      (Origin.xcm_origin (staking_admin origins checks)) admin_enters refl
      ((transact_origin_iff origins (staking_admin origins checks) xcm
          (Origin.xcm_origin (staking_admin origins checks))).1
        refl)
      ((collator_selection_update_origin_iff origins checks
          (Origin.xcm_origin (staking_admin origins checks))).1
        (inr refl))

-- The staking admin, as XCM.
privileged_transacts_example :
    (((o : Origin) × (origins.convert_origin
            ((xcm_config sdk 1000).origin_converter)
            (staking_admin origins checks)
            xcm
          ≡ some o)
        × (checks.passes (collator_selection_update_origin origins checks) o ≡ true))
      ↔ ((staking_admin origins checks ≡ staking_admin origins checks) × (xcm ≡ xcm)))
    × (((o : Origin) × (origins.convert_origin
              ((xcm_config sdk 1000).origin_converter)
              (staking_admin origins checks)
              xcm
            ≡ some o)
          × (checks.passes ((nfts_config origins checks).create_origin) o ≡ true))
        ↔ ((a : ℕ) × ActsAs origins (staking_admin origins checks) xcm a))
    × ((o : Origin)
        → origins.convert_origin
            ((xcm_config sdk 1000).origin_converter)
            (staking_admin origins checks)
            xcm
          ≡ some o
        → (checks.passes ((xcmp_queue_config origins checks).controller_origin) o ≡ false)
          × (checks.passes ((nfts_config origins checks).force_origin) o ≡ false)
          × (checks.passes ((pallet_xcm_config sdk 1000).admin_origin) o ≡ false))
privileged_transacts_example = privileged_transacts sdk 1000 (staking_admin origins checks) xcm
