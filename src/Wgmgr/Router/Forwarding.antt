-- ===== src/Wgmgr/Router/Forwarding.antt =====
-- Which destinations the router proxies to the real network, and for whom.
use blinex.Prelude.{
  ℕ, ◌≡◌, ◌≢◌, ◌⊎◌, inl, inr, Bool, true, false, not, ◌&&◌, Option, none, some, List, [], ◌∷◌,
  arith, ◌==◌, nat_eq, Bool-cases, Some,
}
use blinex.Prelude.Text.{Text, text}
use blinex.Netip.{
  Addr, Prefix, contains, is_loopback, is_unspecified, is_link_local_unicast, is_multicast,
  is_private,
}
use blinex.Wgmgr.Acl.{acl_allows}
use blinex.Wgmgr.Router.{
  Router, dialed, mesh_exclude, localhost, covered, should_forward, handle_tcp, handle_udp, acquire,
}

-- An advertised subnet offers a destination: it holds it, and a default route offers no private one.
pub record Offers (dst : Addr) (s : Prefix) : Type 0 where
  pub holds : contains s dst ≡ true
  pub public_egress : (s.bits ≢ 0) ⊎ (is_private dst ≡ false)

pub record IsRoutable (dst : Addr) : Type 0 where
  pub not_loopback : is_loopback dst ≡ false
  pub not_unspecified : is_unspecified dst ≡ false
  pub not_link_local : is_link_local_unicast dst ≡ false
  pub not_multicast : is_multicast dst ≡ false
  pub not_mesh : contains mesh_exclude dst ≡ false

covered-Offers :
    (subnets : List Prefix) (dst : Addr) → covered subnets dst ≡ true → Some (Offers dst) subnets
covered-Offers [] dst h = unfold covered in cc h
covered-Offers (s ∷ subnets) dst h =
    elim (Bool-cases (contains s dst && not (s.bits == 0 && is_private dst))) [
      | inl y ↦
          inl (record { holds = ground arith; public_egress = offer_egress s dst (ground arith) })
      | inr n ↦ inr (covered-Offers subnets dst (unfold covered in ground arith))
    ]
  where
    offer_egress :
        (s : Prefix) (dst : Addr)
        → (s.bits == 0 && is_private dst) ≡ false
        → (s.bits ≢ 0) ⊎ (is_private dst ≡ false)
    offer_egress s dst e = elim (Bool-cases (is_private dst)) [
      | inl y ↦ inl (ground arith)
      | inr n ↦ inr n
    ]

should_forward_sound :
    (n : Router) (dst : Addr)
    → should_forward n dst ≡ true
    → IsRoutable dst × Some (Offers dst) n.subnets
unfolding should_forward
should_forward_sound n dst h = (ground arith, covered-Offers n.subnets dst (ground arith))

-- The policy lets a request through: it names no source, or one that is allowed.
abbrev pub Permitted : Router → Option Addr → Addr → Text → ℕ → Type 0
Permitted n none dst proto port = Unit {0}
Permitted n (some src) dst proto port = acl_allows n.acl_rules src dst proto port ≡ true

-- The router's own service, on the host's loopback, or a destination that it forwards to.
abbrev pub Target : Router → Addr → Addr → Type 0
Target n dst target =
    ((dst ≡ n.local_addr) × (target ≡ localhost))
    ⊎ ((dst ≢ n.local_addr) × (target ≡ dst) × IsRoutable dst × Some (Offers dst) n.subnets)

module _ (n : Router) (src : Option Addr) (dst : Addr) (port : ℕ) (endpoint_ok : Bool)
    (target p : ℕ) where
  handle_tcp-Target :
      (handle_tcp n src (some dst) port endpoint_ok).0 ≡ dialed target p → Target n dst target
  unfolding handle_tcp acquire
  handle_tcp-Target h = elim (Bool-cases (dst == n.local_addr)) [
    | inl l ↦ inl (ground arith, ground arith)
    | inr r ↦
        let fwd = should_forward_sound n dst (ground arith) in
        inr (ground arith, ground arith, fwd.0, fwd.1)
  ]

  -- A TCP request is dialed only if it is for the router's own service, and then on the host's
  -- loopback, or for a destination that is forwarded, and then there; only if the policy allows its
  -- source, where it has one; and only at its own port.
  pub handle_tcp-dialed :
      (handle_tcp n src (some dst) port endpoint_ok).0 ≡ dialed target p
      → Target n dst target × Permitted n src dst (text "tcp") port × (p ≡ port)
  handle_tcp-dialed h =
      (handle_tcp-Target h, permitted src h, unfold handle_tcp acquire in ground arith)
    where
      permitted :
          (src : Option Addr)
          → (handle_tcp n src (some dst) port endpoint_ok).0 ≡ dialed target p
          → Permitted n src dst (text "tcp") port
      permitted none h = tt
      permitted (some a) h = unfold handle_tcp acquire in ground arith

  -- A UDP request is dialed only at the destination and port that it names, if that is forwarded to
  -- and the policy allows the source.
  pub handle_udp-dialed :
      (handle_udp n src (some dst) port endpoint_ok).0 ≡ dialed target p
      → (target ≡ dst)
        × (p ≡ port)
        × IsRoutable dst
        × Some (Offers dst) n.subnets
        × Permitted n src dst (text "udp") port
  handle_udp-dialed h =
      let fwd = should_forward_sound n dst (unfold handle_udp in ground arith) in
      (
        unfold handle_udp acquire in ground arith,
        unfold handle_udp acquire in ground arith,
        fwd.0,
        fwd.1,
        permitted src h,
      )
    where
      permitted :
          (src : Option Addr)
          → (handle_udp n src (some dst) port endpoint_ok).0 ≡ dialed target p
          → Permitted n src dst (text "udp") port
      permitted none h = tt
      permitted (some a) h = unfold handle_udp acquire in ground arith
