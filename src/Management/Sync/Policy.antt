-- ===== src/Management/Sync/Policy.antt =====
-- management/internal/grpcserver/server.go, `expandGroupRule`: the rules that an agent receives
-- against the rules as they are written, on groups.
use blinex.Prelude.{
  ℕ, Bool, true, false, ◌&&◌, ◌||◌, List, [], ◌∷◌, ◌++◌, map, ◌≡◌, refl, inl, inr, arith, ◌==◌,
  if◌then◌else◌, any, Bool-cases,
}
use blinex.Prelude.Text.{Text, text, text_eq, text_beq_iff, has_prefix, trim_prefix}
use blinex.Prelude.Dict.{Dict, get, put, get-put}
use blinex.Netip.{Addr}
use blinex.Management.Domain.{Peer, Rule}
use blinex.Wgmgr.Acl
use blinex.Wgmgr.Acl.{host_match, proto_match, acl_allows}
use blinex.Management.Sync.{
  is_empty, list_at, index_groups, index_peers, with_dsts, with_srcs, group_prefix, side,
  expand_group_rule, to_wire, rules_to_send,
}

-- Whether the address of some member of the group passes a test.
abbrev pub in_group : List Peer → Text → (Text → Bool) → Bool
in_group ps g q = any (λ p. any (λ h. h == g) p.groups && q p.ip) ps

-- What one side of a rule says of an address, with the groups read off the peers.
abbrev pub side_match : List Peer → Text → Addr → Bool
side_match ps field ip =
    if has_prefix field group_prefix
    then in_group ps (trim_prefix field group_prefix) (λ member. host_match member ip)
    else host_match field ip

-- The decision of the written rules: the first enabled one that matches.
unfoldable pub policy : List Peer → List Rule → Addr → Addr → Text → ℕ → Bool
policy ps [] src dst proto dport = false
policy ps (r ∷ rs) src dst proto dport =
    if r.enabled
      && side_match ps r.src src
      && side_match ps r.dst dst
      && proto_match (to_wire r) proto dport
    then r.action == text "allow"
    else policy ps rs src dst proto dport

any-append : (q : Text → Bool) (xs ys : List Text) → any q (xs ++ ys) ≡ any q xs || any q ys
unfolding any
any-append q [] ys = refl
any-append q (x ∷ xs) ys = ground (arith, any-append q xs ys)

added :
    (q : Text → Bool) (m : Dict Text (List Text)) (h ip g : Text)
    → any q (list_at (get (put m h (list_at (get m h) ++ (ip ∷ []))) g))
      ≡ any q (list_at (get m g)) || (h == g && q ip)
unfolding any
added q m h ip g = elim (Bool-cases (h == g)) [
  | inl y ↦
      rw (get-put m h g (list_at (get m h) ++ (ip ∷ [])), y, (text_beq_iff h g).0 y)
        (rw (any-append q (list_at (get m g)) (ip ∷ [])) (ground arith))
  | inr n ↦ rw (get-put m h g (list_at (get m h) ++ (ip ∷ [])), n) (ground arith)
]

any-index_groups :
    (q : Text → Bool) (m : Dict Text (List Text)) (gs : List Text) (ip g : Text)
    → any q (list_at (get (index_groups m gs ip) g))
      ≡ any q (list_at (get m g)) || (any (λ h. h == g) gs && q ip)
unfolding any index_groups
any-index_groups q m [] ip g = ground arith
any-index_groups q m (h ∷ gs) ip g =
    ground (
      arith,
      added q m h ip g,
      any-index_groups q (put m h (list_at (get m h) ++ (ip ∷ []))) gs ip g,
    )

any-index_peers :
    (q : Text → Bool) (m : Dict Text (List Text)) (ps : List Peer) (g : Text)
    → any q (list_at (get (index_peers m ps) g)) ≡ any q (list_at (get m g)) || in_group ps g q
unfolding any index_peers
any-index_peers q m [] g = ground arith
any-index_peers q m (p ∷ ps) g = ground (
  arith,
  any-index_groups q m p.groups p.ip g,
  any-index_peers q (index_groups m p.groups p.ip) ps g,
)

module _ (src dst : Addr) (proto : Text) (dport : ℕ) where
  abbrev decides : List Acl.Rule → Bool
  decides rules = acl_allows rules src dst proto dport

  with_dsts_lem :
      (r : Rule) (s : Text) (ds : List Text) (rest : List Acl.Rule)
      → decides (map to_wire (with_dsts r s ds) ++ rest) ≡ (
          if r.enabled
            && host_match s src
            && any (λ d. host_match d dst) ds
            && proto_match (to_wire r) proto dport
          then r.action == text "allow"
          else decides rest)
  unfolding any with_dsts acl_allows to_wire proto_match
  with_dsts_lem r s [] rest = ground arith
  with_dsts_lem r s (d ∷ ds) rest = ground (arith, with_dsts_lem r s ds rest)

  map-append : (xs ys : List Rule) → map to_wire (xs ++ ys) ≡ map to_wire xs ++ map to_wire ys
  map-append [] ys = refl
  map-append (x ∷ xs) ys = cc (map-append xs ys)

  append_assoc : (xs ys zs : List Acl.Rule) → (xs ++ ys) ++ zs ≡ xs ++ (ys ++ zs)
  append_assoc [] ys zs = refl
  append_assoc (x ∷ xs) ys zs = cc (append_assoc xs ys zs)

  with_srcs_lem :
      (r : Rule) (ss ds : List Text) (rest : List Acl.Rule)
      → decides (map to_wire (with_srcs r ss ds) ++ rest) ≡ (
          if r.enabled
            && any (λ s. host_match s src) ss
            && any (λ d. host_match d dst) ds
            && proto_match (to_wire r) proto dport
          then r.action == text "allow"
          else decides rest)
  unfolding any with_srcs
  with_srcs_lem r [] ds rest = ground arith
  with_srcs_lem r (s ∷ ss) ds rest =
      rw
        (
          map-append (with_dsts r s ds) (with_srcs r ss ds),
          append_assoc (map to_wire (with_dsts r s ds)) (map to_wire (with_srcs r ss ds)) rest,
          with_dsts_lem r s ds (map to_wire (with_srcs r ss ds) ++ rest),
        )
        (ground (arith, with_srcs_lem r ss ds rest))

  single_lem :
      (r : Rule) (rest : List Acl.Rule)
      → decides (to_wire r ∷ rest) ≡ (
          if r.enabled
            && host_match r.src src
            && host_match r.dst dst
            && proto_match (to_wire r) proto dport
          then r.action == text "allow"
          else decides rest)
  unfolding acl_allows to_wire
  single_lem r rest = ground arith

  any-side :
      (ps : List Peer) (field : Text) (ip : Addr)
      → any (λ f. host_match f ip) (side (index_peers [] ps) field) ≡ side_match ps field ip
  unfolding side any get
  any-side ps field ip = elim (Bool-cases (has_prefix field group_prefix)) [
    | inl y ↦ rw y (
        ground
          (arith, any-index_peers (λ f. host_match f ip) [] ps (trim_prefix field group_prefix)))
    | inr n ↦ rw n (ground arith)
  ]

  any_empty : (q : Text → Bool) (xs : List Text) → is_empty xs ≡ true → any q xs ≡ false
  unfolding any
  any_empty q [] h = refl
  any_empty q (x ∷ xs) h = cc h

  plain_side :
      (ps : List Peer) (field : Text) (ip : Addr)
      → has_prefix field group_prefix ≡ false
      → side_match ps field ip ≡ host_match field ip
  plain_side ps field ip n = rw n refl

  expand_lem :
      (ps : List Peer) (r : Rule) (rest : List Acl.Rule)
      → decides (map to_wire (expand_group_rule (index_peers [] ps) r) ++ rest) ≡ (
          if r.enabled
            && side_match ps r.src src
            && side_match ps r.dst dst
            && proto_match (to_wire r) proto dport
          then r.action == text "allow"
          else decides rest)
  unfolding expand_group_rule
  expand_lem ps r rest =
      let m = index_peers [] ps in
      ground (
        arith,
        single_lem r rest,
        with_srcs_lem r (side m r.src) (side m r.dst) rest,
        any-side ps r.src src,
        any-side ps r.dst dst,
        plain_side ps r.src src,
        plain_side ps r.dst dst,
        any_empty (λ f. host_match f src) (side m r.src),
        any_empty (λ f. host_match f dst) (side m r.dst),
      )

  -- An agent decides a packet by the rules it is sent as the rules of the account say, first match
  -- in their order, with a group standing for the addresses of the peers that are in it.
  pub rules_to_send-policy :
      (ps : List Peer) (rules : List Rule)
      → acl_allows (rules_to_send (index_peers [] ps) rules) src dst proto dport
        ≡ policy ps rules src dst proto dport
  unfolding rules_to_send policy
  rules_to_send-policy ps [] = unfold acl_allows in refl
  rules_to_send-policy ps (r ∷ rs) =
      rw (expand_lem ps r (rules_to_send (index_peers [] ps) rs), rules_to_send-policy ps rs) refl
