-- ===== src/Runtime/Xcm/Router.antt =====
-- `XcmRouter` of runtime/src/configs/xcm_config.rs: the queue that takes a message to another chain.
-- The routers are the SDK's; `RouterApi` has which destinations are theirs.
use nonfungible_adapter_tuto.Base.{
  ℕ, ◌≡◌, ◌≢◌, refl, sym, ◌∙◌, ◌↔◌, ◌⊎◌, inl, inr, List, [], ◌∷◌, Result, ok, err,
}
use nonfungible_adapter_tuto.Sdk.Xcm.{Location}
use nonfungible_adapter_tuto.Runtime.Xcm.Accounts.{parent, sibling}

-- `SendError`: the destination is not this router's, or sending failed.
pub data SendError (E : Type 0) : Type 0 where
  not_applicable : SendError E
  failed : E → SendError E

-- Where a message goes: up to the relay chain, or across to a parachain.
pub data Channel : Type 0 where
  ump : Channel
  xcmp : ℕ → Channel

-- The next router is asked only where this one has no part in the destination.
abbrev pub try_next :
    {E A : Type 0} → Result (SendError E) A → Result (SendError E) A → Result (SendError E) A
try_next (err not_applicable) r = r
try_next (err (failed e)) r = err (failed e)
try_next (ok a) r = ok a

try_next-ok :
    {E A : Type 0} (r s : Result (SendError E) A) (a : A)
    → try_next r s ≡ ok a
    → (r ≡ ok a) ⊎ ((r ≡ err not_applicable) × (s ≡ ok a))
try_next-ok (err not_applicable) s a h = inr (refl, h)
try_next-ok (err (failed e)) s a h = absurd (cc)
try_next-ok (ok x) s a h = inl h

try_next-not_applicable :
    {E A : Type 0} (r s : Result (SendError E) A)
    → (try_next r s ≡ err not_applicable) ↔ ((r ≡ err not_applicable) × (s ≡ err not_applicable))
try_next-not_applicable (err not_applicable) s = (λ h. (refl, h), λ (_, h). h)
try_next-not_applicable (err (failed e)) s = (λ h. absurd (cc), λ (h, _). absurd (cc))
try_next-not_applicable (ok x) s = (λ h. absurd (cc), λ (h, _). absurd (cc))

pub record RouterApi (R : Type 0) : Type 1 where
  pub Message : Type 0
  pub E : Type 0
  pub Router : Type 0
  pub send : Router → Location R → Message → Result (SendError E) Channel
  -- `ParentAsUmp<ParachainSystem, (), ()>` and `XcmpQueue`.
  pub parent_as_ump : Router
  pub xcmp_queue : Router
  -- `WithUniqueTopic`, which sends the message with a topic of its own.
  pub with_unique_topic : Router → Router
  pub with_topic : Message → Message
  pub tuple : List Router → Router
  pub send-parent_as_ump :
      (d : Location R) (m : Message)
      → ((send parent_as_ump d m ≡ err not_applicable) ↔ (d ≢ parent))
        × ((c : Channel) → send parent_as_ump d m ≡ ok c → (d ≡ parent) × (c ≡ ump))
  pub send-xcmp_queue :
      (d : Location R) (m : Message)
      → ((send xcmp_queue d m ≡ err not_applicable) ↔ ((id : ℕ) → d ≢ sibling id))
        × ((c : Channel) → send xcmp_queue d m ≡ ok c → (id : ℕ) × (d ≡ sibling id) × (c ≡ xcmp id))
  pub send-with_unique_topic :
      (r : Router) (d : Location R) (m : Message)
      → send (with_unique_topic r) d m ≡ send r d (with_topic m)
  pub send-tuple_nil : (d : Location R) (m : Message) → send (tuple []) d m ≡ err not_applicable
  pub send-tuple_cons :
      (r : Router) (rs : List Router) (d : Location R) (m : Message)
      → send (tuple (r ∷ rs)) d m ≡ try_next (send r d m) (send (tuple rs) d m)

module _ {R : Type 0} (api : RouterApi R) where
  open api use {Message, Router, send, parent_as_ump, xcmp_queue}

  unfoldable pub xcm_router : Router
  xcm_router = api.with_unique_topic (api.tuple (parent_as_ump ∷ xcmp_queue ∷ []))

  send-xcm_router :
      (d : Location R) (m : Message)
      → send xcm_router d m
        ≡ try_next
            (send parent_as_ump d (api.with_topic m))
            (try_next (send xcmp_queue d (api.with_topic m)) (err not_applicable))
  unfolding xcm_router
  send-xcm_router d m =
      simp (api.send-with_unique_topic, api.send-tuple_cons, api.send-tuple_nil) refl

  -- A message that is sent goes up to the relay chain if that is its destination, and otherwise
  -- across to the sibling parachain that is.
  xcm_router_channel :
      (d : Location R) (m : Message) (c : Channel)
      → send xcm_router d m ≡ ok c
      → ((d ≡ parent) × (c ≡ ump)) ⊎ ((id : ℕ) × (d ≡ sibling id) × (c ≡ xcmp id))
  xcm_router_channel d m c h =
      let t = api.with_topic m in
      elim (try_next-ok _ _ c (sym (send-xcm_router d m) ∙ h)) [
        | inl up ↦ inl ((api.send-parent_as_ump d t).1 c up)
        | inr (_, rest) ↦ elim (try_next-ok _ _ c rest) [
          | inl across ↦ inr ((api.send-xcmp_queue d t).1 c across)
          | inr (_, none_left) ↦ absurd (cc)
        ]
      ]

  -- A destination has no router exactly if it is neither the relay chain nor a sibling parachain.
  xcm_router_unroutable :
      (d : Location R) (m : Message)
      → (send xcm_router d m ≡ err not_applicable) ↔ ((d ≢ parent) × ((id : ℕ) → d ≢ sibling id))
  xcm_router_unroutable d m =
      let t = api.with_topic m in
      let up = (api.send-parent_as_ump d t).0 in
      let across = (api.send-xcmp_queue d t).0 in
      (
        λ h.
            let (skipped, rest) = (try_next-not_applicable _ _).0 (sym (send-xcm_router d m) ∙ h) in
            let (unsent, _) = (try_next-not_applicable _ _).0 rest in
            (up.0 skipped, across.0 unsent),
        λ (other, none_of).
            send-xcm_router d m
            ∙ (try_next-not_applicable _ _).1
                (up.1 other, (try_next-not_applicable _ _).1 (across.1 none_of, refl)),
      )

  -- A message that is sent goes up to the relay chain if that is its destination, and otherwise
  -- across to the sibling parachain that is; and the router has no part in a message exactly if
  -- its destination is neither.
  pub xcm_router_destinations :
      (d : Location R) (m : Message)
      → ((c : Channel)
          → send xcm_router d m ≡ ok c
          → ((d ≡ parent) × (c ≡ ump)) ⊎ ((id : ℕ) × (d ≡ sibling id) × (c ≡ xcmp id)))
        × ((send xcm_router d m ≡ err not_applicable)
            ↔ ((d ≢ parent) × ((id : ℕ) → d ≢ sibling id)))
  xcm_router_destinations d m = (xcm_router_channel d m, xcm_router_unroutable d m)
