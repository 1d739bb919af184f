-- ===== src/Wgmgr/Conntrack/Replies.antt =====
-- What the flow table lets in, over any history of packets.
use blinex.Prelude.{
  ℕ, ◌-◌, ◌≤◌, ◌≡◌, ◌⊎◌, inl, inr, Bool, true, some, List, [], ◌∷◌, arith, leb, if◌then◌else◌,
  Bool-cases, Option-cases, length, Some,
}
use blinex.Prelude.Dict.{
  get, put, get-put, get-put_self, get-remove, length-put-le, length-remove-le,
}
use blinex.Wgmgr.Packet.{
  Packet, FlowKey, flow_eq, flow_beq, flow_beq_iff, reverse, reverse-reverse, parse_flow_key,
}
use blinex.Wgmgr.Conntrack.{Flows, conntrack_ttl, conntrack_max, observe_outbound, allow_inbound}

-- A packet that this host sent or received, with its time; the newest first.
pub data Event : Type 0 where
  sent : Packet → ℕ → Event
  received : Packet → ℕ → Event

unfoldable pub after : Flows → Event → Flows
after flows (sent pkt now) = observe_outbound flows pkt now
after flows (received pkt now) = (allow_inbound flows pkt now).1

-- The table after a history, from the empty one.
unfoldable pub run : List Event → Flows
run [] = []
run (e ∷ es) = after (run es) e

-- An event sent, at a time, a packet whose reply has a key.
abbrev pub Started : FlowKey → ℕ → Event → Type 0
Started k t (sent pkt now) = (parse_flow_key pkt ≡ some (reverse k)) × (now ≡ t)
Started k t (received pkt now) = ⊥

get-emptied :
    (b : Bool) (flows : Flows) (k : FlowKey) (t : ℕ)
    → get (if b then [] else flows) k ≡ some t
    → get flows k ≡ some t
unfolding get
get-emptied b flows k t h = ground arith

-- A flow in the table was there before, or the packet just sent has put it there.
pub get-observe :
    (flows : Flows) (pkt : Packet) (now : ℕ) (k : FlowKey) (t : ℕ)
    → get (observe_outbound flows pkt now) k ≡ some t
    → Started k t (sent pkt now) ⊎ (get flows k ≡ some t)
get-observe flows pkt now k t h = elim (Option-cases (parse_flow_key pkt)) [
  | inl e ↦ inr (unfold observe_outbound in rw e at h)
  | inr (j, e) ↦ placed j e (unfold observe_outbound in rw e at h)
]
  where
    placed :
        (j : FlowKey)
        → parse_flow_key pkt ≡ some j
        → get (put (if leb conntrack_max (length flows) then [] else flows) (reverse j) now) k
          ≡ some t
        → Started k t (sent pkt now) ⊎ (get flows k ≡ some t)
    placed j e g = elim (Bool-cases (flow_beq (reverse j) k)) [
      | inl same ↦ inl (
        ground (arith, (flow_beq_iff (reverse j) k).0 same, reverse-reverse j),
        ground (
          arith,
          get-put (if leb conntrack_max (length flows) then [] else flows) (reverse j) k now,
        ),
      )
      | inr other ↦ inr (
          get-emptied (leb conntrack_max (length flows)) flows k t (
            ground (
              arith,
              get-put (if leb conntrack_max (length flows) then [] else flows) (reverse j) k now,
            )))
    ]

pub get-allow :
    (flows : Flows) (pkt : Packet) (now : ℕ) (k : FlowKey) (t : ℕ)
    → get (allow_inbound flows pkt now).1 k ≡ some t
    → get flows k ≡ some t
unfolding allow_inbound
get-allow flows pkt now k t h = elim (Option-cases (parse_flow_key pkt)) [
  | inl e ↦ ground arith
  | inr (j, e) ↦ ground (arith, get-remove flows j k)
]

run-Started :
    (es : List Event) (k : FlowKey) (t : ℕ) → get (run es) k ≡ some t → Some (Started k t) es
run-Started [] k t h = unfold get run in cc h
run-Started (sent pkt now ∷ es) k t h =
    elim (get-observe (run es) pkt now k t (unfold run after in h)) [
      | inl here ↦ inl here
      | inr g ↦ inr (run-Started es k t g)
    ]
run-Started (received pkt now ∷ es) k t h =
    inr (run-Started es k t (get-allow (run es) pkt now k t (unfold run after in h)))

-- A packet is let in as a reply only if this host has sent, at most `conntrack_ttl` ago, a packet of
-- the flow that it reverses: whatever was sent and received in between.
pub allow_inbound-Started :
    (es : List Event) (pkt : Packet) (now : ℕ)
    → (allow_inbound (run es) pkt now).0 ≡ true
    → (k : FlowKey) × (t : ℕ) × (parse_flow_key pkt ≡ some k)
      × Some (Started k t) es
      × (now - t ≤ conntrack_ttl)
allow_inbound-Started es pkt now h = elim (Option-cases (parse_flow_key pkt)) [
  | inl e ↦ absurd (unfold allow_inbound in ground arith)
  | inr (k, e) ↦ elim (Option-cases (get (run es) k)) [
    | inl g ↦ absurd (unfold allow_inbound in ground arith)
    | inr (t, g) ↦ (k, t, e, run-Started es k t g, unfold allow_inbound in ground arith)
  ]
]

-- Right after a packet was sent, its reply is let in, until the limit has passed.
pub allow_inbound-observe :
    (flows : Flows) (pkt reply : Packet) (k : FlowKey) (sent_at now : ℕ)
    → parse_flow_key pkt ≡ some k
    → parse_flow_key reply ≡ some (reverse k)
    → (allow_inbound (observe_outbound flows pkt sent_at) reply now).0
      ≡ leb (now - sent_at) conntrack_ttl
unfolding allow_inbound observe_outbound
allow_inbound-observe flows pkt reply k sent_at now e r = ground (
  arith,
  get-put_self (if leb conntrack_max (length flows) then [] else flows) (reverse k) sent_at,
)

after-bounded :
    (flows : Flows) (e : Event)
    → length flows ≤ conntrack_max
    → length (after flows e) ≤ conntrack_max
unfolding after observe_outbound allow_inbound
after-bounded flows (sent pkt now) h = elim (Option-cases (parse_flow_key pkt)) [
  | inl e ↦ ground arith
  | inr (k, e) ↦ ground (
    arith,
    length-put-le (if leb conntrack_max (length flows) then [] else flows) (reverse k) now,
  )
]
after-bounded flows (received pkt now) h = elim (Option-cases (parse_flow_key pkt)) [
  | inl e ↦ ground arith
  | inr (k, e) ↦ ground (arith, length-remove-le flows k)
]

-- The table never holds more than `conntrack_max` flows, whatever the packets.
pub run_bounded : (es : List Event) → length (run es) ≤ conntrack_max
run_bounded [] = unfold run in omega arith
run_bounded (e ∷ es) = run_step e es (run_bounded es)
  where
    run_step :
        (e : Event) (es : List Event)
        → length (run es) ≤ conntrack_max
        → length (run (e ∷ es)) ≤ conntrack_max
    run_step e es h = unfold run in after-bounded (run es) e h
