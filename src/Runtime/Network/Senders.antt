-- ===== src/Runtime/Network/Senders.antt =====
-- Who has sent the messages that arrive at a parachain of the network of Runtime/Network.antt, and so who
-- causes the events of the template pallet there.
use package.native.Mathlib.Decide.{ℕ_discrete}
use mathlib.Core.List.{Memᴰ}
use mathlib.Core.List.Memᴰ.{append_cases, eq_of_singleton, not-nil}
use nonfungible_adapter_tuto.Base.{
  ℕ, ◌≡◌, ◌⊎◌, refl, ap, inl, inr, true, some, ok, List, [], ◌∷◌, ◌++◌, only_if-yes, only_if-no,
}
use nonfungible_adapter_tuto.Sdk.Numbers.{Numbers}
use nonfungible_adapter_tuto.Pallet.{something_stored, do_something_call}
use nonfungible_adapter_tuto.Runtime.Xcm.Accounts as Accounts
use nonfungible_adapter_tuto.Runtime.Xcm.Executor.{xcm_config}
use nonfungible_adapter_tuto.Runtime.Xcm.Router.{Channel, xcmp, xcm_router_destinations}
use nonfungible_adapter_tuto.Runtime.Queues.{parent, sibling}
use nonfungible_adapter_tuto.Runtime.Chain.{ChainInput, extrinsic, horizontal, Nests}
use nonfungible_adapter_tuto.Runtime.Chain.Arrivals.{received_horizontal}
use nonfungible_adapter_tuto.Runtime.Chain.Safety.{Admitted, event_causes}
use nonfungible_adapter_tuto.Runtime.Network.{
  NetworkSdk, chain, Packet, Network, Happening, at, sends, happen, send, Moves, done, next,
  beginning,
}
use nonfungible_adapter_tuto.Runtime.Network.Views.{seen, view, moves_steps}

module _ {n : Numbers} {R : Type 0} (net : NetworkSdk n R) where
  open net use {sdk, queues, runs, encode}
  open sdk use {origins, gates, router}
  open origins.accounts use {AccountId, parent_account, sibling_account}
  open queues use {Blob}

  -- What a parachain sees has happened at it.
  view_at :
      (j : ℕ) (x : ChainInput AccountId origins.RuntimeOrigin Blob) (hs : List (Happening net))
      → Memᴰ x (view net j hs)
      → Memᴰ (at j x) hs
  view_at j x [] m = absurd (not-nil m)
  view_at j x (sends _ _ _ ∷ hs) m = Memᴰ.tail (view_at j x hs m)
  view_at j x (at i y ∷ hs) m = elim (append_cases (seen net j (at i y)) m) [
    | inl now ↦ elim (ℕ_discrete j i) [
      | yes e ↦
          let same = eq_of_singleton (rw (only_if-yes (ℕ_discrete j i) y e) at now) in
          Memᴰ.head (cc)
      | no h ↦ absurd (not-nil (rw (only_if-no (ℕ_discrete j i) y h) at now))
    ]
    | inr later ↦ Memᴰ.tail (view_at j x hs later)
  ]

  -- A message of a parachain, with the bytes that arrive.
  abbrev pub SentBy : ℕ → ℕ → Blob → List (Happening net) → Type 0
  SentBy i j b hs =
      (m : router.Message) × Memᴰ (sends i (Accounts.sibling j) m) hs
      × (b ≡ encode (router.with_topic m))

  sent_later :
      {i j : ℕ} {b : Blob} {h : Happening net} {hs : List (Happening net)}
      → SentBy i j b hs
      → SentBy i j b (h ∷ hs)
  sent_later (m, by, e) = (m, Memᴰ.tail by, e)

  -- What is on its way after a send was on its way before, or is what is sent.
  sent_now :
      (s : Network net) (i j k : ℕ) (d : _) (m : router.Message) (c : Channel) (b : Blob)
      (hs : List (Happening net))
      → router.send ((xcm_config sdk k).xcm_sender) d m ≡ ok c
      → Memᴰ {A = Packet net} (i, xcmp j, b) (s.sent ++ (k, c, encode (router.with_topic m)) ∷ [])
      → Memᴰ {A = Packet net} (i, xcmp j, b) s.sent ⊎ SentBy i j b (sends k d m ∷ hs)
  sent_now s i j k d m c b hs ok_sent among = elim (append_cases s.sent among) [
    | inl before ↦ inl before
    | inr now ↦
        let e = eq_of_singleton now in
        let from : i ≡ k = ap (λ (p : Packet net). p.0) e in
        let by : xcmp j ≡ c = ap (λ (p : Packet net). p.1) e in
        let bytes : b ≡ encode (router.with_topic m) = ap (λ (p : Packet net). p.2) e in
        elim ((xcm_router_destinations router d m).0 c ok_sent) [
          | inl (_, f) ↦ absurd (cc)
          | inr (id, place, f) ↦
              let same : j ≡ id = cc in inr (m, Memᴰ.head (rw (from, same, place) refl), bytes)
        ]
  ]

  -- A message that arrives from a parachain that runs this runtime was on its way at first, or that
  -- parachain sends it.
  arrived_sent :
      {s t : Network net} {hs : List (Happening net)} (i j : ℕ) (b : Blob)
      → runs i ≡ true
      → Moves net s hs t
      → Memᴰ (at j (horizontal i b)) hs
      → Memᴰ {A = Packet net} (i, xcmp j, b) s.sent ⊎ SentBy i j b hs
  arrived_sent i j b ours done m = absurd (not-nil m)
  arrived_sent {s} i j b ours (next (happen k x u may _) rest) (Memᴰ.head e) =
      let place : j ≡ k = cc in
      let input : horizontal i b ≡ x = cc in
      elim (rw (← place, ← input) at may) [ inl foreign ↦ absurd (cc) | inr before ↦ inl before ]
  arrived_sent i j b ours (next (happen k x u _ _) rest) (Memᴰ.tail m) =
      elim (arrived_sent i j b ours rest m) [
        | inl before ↦ inl before
        | inr by ↦ inr (sent_later by)
      ]
  arrived_sent i j b ours (next (send k d x c _) rest) (Memᴰ.head e) = absurd (cc)
  arrived_sent {s} i j b ours (next {hs} (send k d x c sent_ok) rest) (Memᴰ.tail m) =
      elim (arrived_sent i j b ours rest m) [
        | inl among ↦ sent_now s i j k d x c b hs sent_ok among
        | inr by ↦ inr (sent_later by)
      ]

  -- Whatever happens from the beginning at the parachains of the network, in any order, an event of the
  -- template pallet of one of them names an account that signed an extrinsic for it there; or one
  -- as which a call of it is dispatched there that is nested in a call of another pallet; or that
  -- of the relay chain or of a parachain, and a message of the relay chain has arrived there that
  -- the barrier lets in; or that of a parachain from which such a message has arrived there, which,
  -- if that parachain runs this runtime, it has itself sent there. A change that root makes to a
  -- runtime's code or raw storage is not among what happens.
  pub event_senders :
      {t : Network net} {hs : List (Happening net)} (j bn : ℕ) (a : AccountId)
      → Moves net (beginning net) hs t
      → Memᴰ (something_stored bn a) (t.chains j).template.events
      → Memᴰ (at j (extrinsic a (do_something_call bn))) hs
        ⊎ ((x : ChainInput AccountId origins.RuntimeOrigin Blob) × Memᴰ (at j x) hs
            × Nests (chain net j) a bn x)
        ⊎ (Admitted (chain net j) parent (view net j hs)
            × ((a ≡ parent_account) ⊎ ((id : ℕ) × (a ≡ sibling_account id))))
        ⊎ ((i : ℕ) × (a ≡ sibling_account i)
            × (b : Blob) × Memᴰ (at j (horizontal i b)) hs
            × ((m : gates.Message) × ((net.executor j).decode (sibling i) b ≡ some m)
                × (gates.admits ((xcm_config sdk j).barrier) m ≡ true))
            × ((runs i ≡ true) → SentBy i j b hs))
  event_senders {t} {hs} j bn a moves event =
      elim (event_causes (chain net j) bn a (moves_steps net j moves) event) [
        | inl by ↦ inl (view_at j _ hs by)
        | inr (inl (x, by, nests)) ↦ inr (inl (x, view_at j x hs by, nests))
        | inr (inr (inl relayed)) ↦ inr (inr (inl relayed))
        | inr (inr (inr (i, (b, among, m, read, admitted), own))) ↦
            let arrived = view_at j _ hs (received_horizontal (chain net j) i b _ among) in
            inr (
              inr (
                inr (
                  i,
                  own,
                  b,
                  arrived,
                  (m, read, admitted),
                  λ ours. elim (arrived_sent i j b ours moves arrived) [
                    | inl before ↦ absurd (not-nil before)
                    | inr by ↦ by
                  ],
                )))
      ]
