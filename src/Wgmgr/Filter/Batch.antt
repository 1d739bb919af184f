-- ===== src/Wgmgr/Filter/Batch.antt =====
-- `Write` on a batch of packets.
use blinex.Prelude.{
  ℕ, ◌-◌, ◌≤◌, ◌<◌, ◌≡◌, ◌⊎◌, inl, inr, true, Option, some, List, [], ◌∷◌, arith, leb, Bool-cases,
  Option-cases, length, drop, All, Some, refl,
}
use blinex.Prelude.Dict.{get}
use blinex.Netip.{Addr}
use blinex.Wgmgr.Acl.{Rule}
use blinex.Wgmgr.Packet.{Packet, FlowKey, flow_eq, parse_flow_key}
use blinex.Wgmgr.Conntrack.{Flows, conntrack_ttl, allow_inbound}
use blinex.Wgmgr.Conntrack.Replies.{get-allow}
use blinex.Wgmgr.Filter.{Filter, acl_filter_allows_for, local_addrs, filter_bufs, write}

-- A packet is, at a time, the reply in time to a flow of the table.
pub record IsReply (flows : Flows) (now : ℕ) (pkt : Packet) : Type 0 where
  pub key : FlowKey
  pub seen : ℕ
  pub keyed : parse_flow_key pkt ≡ some key
  pub tracked : get flows key ≡ some seen
  pub in_time : now - seen ≤ conntrack_ttl

-- A buffer is one of the batch, longer than the offset, and at the time at which the batch has it its
-- packet is a reply or allowed.
abbrev pub MayPass : List Rule → List Addr → ℕ → Flows → List (ℕ × Packet) → Packet → Type 0
MayPass rules locals offset flows bufs b =
    (now : ℕ) × Some (λ (x : ℕ × Packet). x ≡ (now, b)) bufs
    × (offset < length b)
    × (IsReply flows now (drop offset b)
        ⊎ (acl_filter_allows_for (drop offset b) rules locals ≡ true))

IsReply-of_allow :
    (flows : Flows) (pkt : Packet) (now : ℕ)
    → (allow_inbound flows pkt now).0 ≡ true
    → IsReply flows now pkt
IsReply-of_allow flows pkt now h = elim (Option-cases (parse_flow_key pkt)) [
  | inl e ↦ absurd (unfold allow_inbound in ground arith)
  | inr (k, e) ↦ elim (Option-cases (get flows k)) [
    | inl g ↦ absurd (unfold allow_inbound in ground arith)
    | inr (t, g) ↦ record {
      key = k;
      seen = t;
      keyed = e;
      tracked = g;
      in_time = unfold allow_inbound in ground arith;
    }
  ]
]

IsReply-allow :
    (flows : Flows) (q pkt : Packet) (now at : ℕ)
    → IsReply (allow_inbound flows q now).1 at pkt
    → IsReply flows at pkt
IsReply-allow flows q pkt now at r = record {
  key = r.key;
  seen = r.seen;
  keyed = r.keyed;
  tracked = get-allow flows q now r.key r.seen r.tracked;
  in_time = r.in_time;
}

module _ (rules : List Rule) (locals : List Addr) (offset : ℕ) where
  -- What may pass in the rest of a batch may pass in the batch.
  MayPass-later :
      (flows : Flows) (x : ℕ × Packet) (bufs : List (ℕ × Packet)) (bs : List Packet)
      → All (MayPass rules locals offset flows bufs) bs
      → All (MayPass rules locals offset flows (x ∷ bufs)) bs
  MayPass-later flows x bufs [] h = tt
  MayPass-later flows x bufs (b ∷ bs) ((at, of, long, may), rest) =
      ((at, inr of, long, may), MayPass-later flows x bufs bs rest)

  MayPass-allow :
      (flows : Flows) (q : Packet) (now : ℕ) (bufs : List (ℕ × Packet)) (bs : List Packet)
      → All (MayPass rules locals offset (allow_inbound flows q now).1 bufs) bs
      → All (MayPass rules locals offset flows bufs) bs
  MayPass-allow flows q now bufs [] h = tt
  MayPass-allow flows q now bufs (b ∷ bs) ((at, of, long, inl r), rest) = (
    (at, of, long, inl (IsReply-allow flows q (drop offset b) now at r)),
    MayPass-allow flows q now bufs bs rest,
  )
  MayPass-allow flows q now bufs (b ∷ bs) ((at, of, long, inr a), rest) =
      ((at, of, long, inr a), MayPass-allow flows q now bufs bs rest)

  -- One buffer: skipped, passed on, or dropped.
  filter_bufs_step :
      (flows : Flows) (now : ℕ) (b : Packet) (bufs all : List (ℕ × Packet))
      → Some (λ (x : ℕ × Packet). x ≡ (now, b)) all
      → All (MayPass rules locals offset flows all) (filter_bufs rules locals offset flows bufs).0
      → All
          (MayPass rules locals offset flows all)
          (filter_bufs rules locals offset (allow_inbound flows (drop offset b) now).1 bufs).0
      → All
          (MayPass rules locals offset flows all)
          (filter_bufs rules locals offset flows ((now, b) ∷ bufs)).0
  unfolding filter_bufs
  filter_bufs_step flows now b bufs all of skipped rest =
      elim (Bool-cases (leb (length b) offset)) [
        | inl short ↦ rw short skipped
        | inr long ↦ elim (Bool-cases (allow_inbound flows (drop offset b) now).0) [
          | inl r ↦
              rw (long, r)
                ((now, of, ground arith, inl (IsReply-of_allow flows (drop offset b) now r)), rest)
          | inr n ↦ elim (Bool-cases (acl_filter_allows_for (drop offset b) rules locals)) [
            | inl a ↦ rw (long, n, a) ((now, of, ground arith, inr a), rest)
            | inr d ↦ rw (long, n, d) rest
          ]
        ]
      ]

  filter_bufs-MayPass :
      (flows : Flows) (bufs : List (ℕ × Packet))
      → All (MayPass rules locals offset flows bufs) (filter_bufs rules locals offset flows bufs).0
  filter_bufs-MayPass flows [] = unfold filter_bufs in tt
  filter_bufs-MayPass flows ((now, b) ∷ bufs) =
      let after = (allow_inbound flows (drop offset b) now).1 in
      filter_bufs_step flows now b bufs ((now, b) ∷ bufs) (inl refl)
        (MayPass-later flows (now, b) bufs _ (filter_bufs-MayPass flows bufs))
        (MayPass-allow flows (drop offset b) now ((now, b) ∷ bufs) _
          (MayPass-later after (now, b) bufs _ (filter_bufs-MayPass after bufs)))

flows-local_addrs :
    (f : Filter) (addrs : Option (List Addr)) (now : ℕ)
    → (local_addrs f addrs now).1.flows ≡ f.flows
unfolding local_addrs
flows-local_addrs f addrs now = ground arith

-- Once a policy is installed, each buffer that `write` hands to the device is one of the batch and
-- longer than the offset, and its packet is one that the policy allows, or a reply to a flow that was
-- in the table before the batch and last seen no longer ago, by the clock at that buffer, than a
-- flow lives.
pub write-MayPass :
    (f : Filter) (addrs : Option (List Addr)) (now : ℕ) (bufs : List (ℕ × Packet)) (offset : ℕ)
    → f.rules_set ≡ true
    → All
        (MayPass f.rules (local_addrs f addrs now).0 offset f.flows bufs)
        (write f addrs now bufs offset).0
unfolding write
write-MayPass f addrs now bufs offset h =
    simp (h, flows-local_addrs f addrs now)
      (filter_bufs-MayPass f.rules (local_addrs f addrs now).0 offset f.flows bufs)
