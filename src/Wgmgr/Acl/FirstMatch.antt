-- ===== src/Wgmgr/Acl/FirstMatch.antt =====
-- The policy that a list of rules stands for, without the loop: the first rule that applies decides.
use blinex.Prelude.{
  ℕ, ◌%◌, ◌^◌, ◌≡◌, ◌≢◌, ◌↔◌, inl, inr, Bool, true, false, not, ◌&&◌, ◌||◌, ltb, if◌then◌else◌,
  none, some, List, [], ◌∷◌, arith, ◌==◌, nat_eq, Bool-cases, Option-cases,
}
use blinex.Prelude.Text.{Text, text, text_eq, text_beq_iff, to_lower}
use blinex.Netip.{Addr, Prefix, parse_addr, parse_prefix, contains}
use blinex.Wgmgr.Acl.{Rule, host_match, proto_match, acl_allows}

-- A field names an address: any, a prefix that holds it, or the address itself.
pub data Names (field : Text) (ip : Addr) : Type 0 where
  empty : field ≡ [] → Names field ip
  star : field ≡ text "*" → Names field ip
  in_prefix : (p : Prefix) → parse_prefix field ≡ some p → contains p ip ≡ true → Names field ip
  exact : parse_prefix field ≡ none → parse_addr field ≡ some ip → Names field ip

-- The rule's protocol and port cover a packet.
pub data Covers (r : Rule) (proto : Text) (dport : ℕ) : Type 0 where
  any_protocol : to_lower r.protocol ≡ [] → Covers r proto dport
  all_protocols : to_lower r.protocol ≡ text "all" → Covers r proto dport
  any_port : to_lower r.protocol ≡ proto → r.port ≡ 0 → Covers r proto dport
  no_ports :
      to_lower r.protocol ≡ proto → proto ≢ text "tcp" → proto ≢ text "udp" → Covers r proto dport
  same_port : to_lower r.protocol ≡ proto → r.port % 2 ^ 16 ≡ dport → Covers r proto dport

pub record Applies (r : Rule) (src dst : Addr) (proto : Text) (dport : ℕ) : Type 0 where
  pub is_enabled : r.enabled ≡ true
  pub from : Names r.src src
  pub to : Names r.dst dst
  pub covered : Covers r proto dport

Names-parsed :
    (f : Text) (ip : Addr)
    → f == [] ≡ false
    → f == text "*" ≡ false
    → host_match f ip ≡ true
    → Names f ip
unfolding host_match
Names-parsed f ip ne ns h = elim (Option-cases (parse_prefix f)) [
  | inr (p, e) ↦ in_prefix p e (ground arith)
  | inl e ↦ exact e (ground arith)
]

Names-sound : (f : Text) (ip : Addr) → host_match f ip ≡ true → Names f ip
Names-sound f ip h = elim (Bool-cases (f == [])) [
  | inl e ↦ empty ((text_beq_iff f []).0 e)
  | inr ne ↦ elim (Bool-cases (f == text "*")) [
    | inl e ↦ star ((text_beq_iff f (text "*")).0 e)
    | inr ns ↦ Names-parsed f ip ne ns h
  ]
]

Names-complete : (f : Text) (ip : Addr) → Names f ip → host_match f ip ≡ true
unfolding host_match
Names-complete f ip (empty e) = ground (arith, text_beq_iff f [])
Names-complete f ip (star e) = ground (arith, text_beq_iff f (text "*"))
Names-complete f ip (in_prefix p e c) = ground arith
Names-complete f ip (exact e a) = ground arith

pub Names_iff : (f : Text) (ip : Addr) → (host_match f ip ≡ true) ↔ Names f ip
Names_iff f ip = (Names-sound f ip, Names-complete f ip)

Covers-complete :
    (r : Rule) (proto : Text) (dport : ℕ) → Covers r proto dport → proto_match r proto dport ≡ true
unfolding proto_match
Covers-complete r proto dport (any_protocol e) =
    ground (arith, text_beq_iff (to_lower r.protocol) [])
Covers-complete r proto dport (all_protocols e) =
    ground (arith, text_beq_iff (to_lower r.protocol) (text "all"))
Covers-complete r proto dport (any_port e z) =
    ground (arith, text_beq_iff (to_lower r.protocol) proto)
Covers-complete r proto dport (no_ports e t u) = ground (
  arith,
  text_beq_iff (to_lower r.protocol) proto,
  text_beq_iff (to_lower r.protocol) (text "tcp"),
  text_beq_iff (to_lower r.protocol) (text "udp"),
)
Covers-complete r proto dport (same_port e p) =
    ground (arith, text_beq_iff (to_lower r.protocol) proto)

Covers-ported :
    (r : Rule) (proto : Text) (dport : ℕ)
    → to_lower r.protocol ≡ proto
    → not (
        ltb 0 r.port
        && (proto == text "tcp" || proto == text "udp")
        && not (r.port % 2 ^ 16 == dport))
      ≡ true
    → Covers r proto dport
Covers-ported r proto dport e h = elim (Bool-cases (r.port == 0)) [
  | inl z ↦ any_port e (ground arith)
  | inr z ↦ elim (Bool-cases (r.port % 2 ^ 16 == dport)) [
    | inl p ↦ same_port e (ground arith)
    | inr p ↦
        no_ports e (λ t. ground (arith, text_beq_iff proto (text "tcp")))
          (λ u. ground (arith, text_beq_iff proto (text "udp")))
  ]
]

Covers-sound :
    (r : Rule) (proto : Text) (dport : ℕ) → proto_match r proto dport ≡ true → Covers r proto dport
unfolding proto_match
Covers-sound r proto dport h = elim (Bool-cases (to_lower r.protocol == [])) [
  | inl e ↦ any_protocol ((text_beq_iff (to_lower r.protocol) []).0 e)
  | inr ne ↦ elim (Bool-cases (to_lower r.protocol == text "all")) [
    | inl e ↦ all_protocols ((text_beq_iff (to_lower r.protocol) (text "all")).0 e)
    | inr na ↦ elim (Bool-cases (to_lower r.protocol == proto)) [
      | inl e ↦
          Covers-ported r proto dport ((text_beq_iff (to_lower r.protocol) proto).0 e)
            (ground (arith, text_beq_iff (to_lower r.protocol) proto))
      | inr d ↦ ground arith
    ]
  ]
]

module _ (src dst : Addr) (proto : Text) (dport : ℕ) where
  -- The rule that decides: the first of the list that applies.
  pub data Decides : List Rule → Rule → Type 0 where
    here : {r : Rule} {rules : List Rule} → Applies r src dst proto dport → Decides (r ∷ rules) r
    later :
        {r s : Rule} {rules : List Rule}
        → ¬ Applies r src dst proto dport
        → Decides rules s
        → Decides (r ∷ rules) s

  -- The code's three tests of one rule, together.
  abbrev tested : Rule → Bool
  tested r = r.enabled && host_match r.src src && host_match r.dst dst && proto_match r proto dport

  Applies-of_tested : (r : Rule) → tested r ≡ true → Applies r src dst proto dport
  Applies-of_tested r h = record {
    is_enabled = ground arith;
    from = Names-sound r.src src (ground arith);
    to = Names-sound r.dst dst (ground arith);
    covered = Covers-sound r proto dport (ground arith);
  }

  tested-Applies : (r : Rule) → Applies r src dst proto dport → tested r ≡ true
  tested-Applies r a = ground (
    arith,
    Names-complete r.src src a.from,
    Names-complete r.dst dst a.to,
    Covers-complete r proto dport a.covered,
  )

  acl_allows-cons :
      (r : Rule) (rules : List Rule)
      → acl_allows (r ∷ rules) src dst proto dport
        ≡ (if tested r then r.action == text "allow" else acl_allows rules src dst proto dport)
  unfolding acl_allows
  acl_allows-cons r rules = ground arith

  acl_allows_sound :
      (rules : List Rule)
      → acl_allows rules src dst proto dport ≡ true
      → (r : Rule) × Decides rules r × (r.action ≡ text "allow")
  acl_allows_sound [] h = unfold acl_allows in cc h
  acl_allows_sound (r ∷ rules) h = elim (Bool-cases (tested r)) [
    | inl y ↦ (
      r,
      here (Applies-of_tested r y),
      (text_beq_iff r.action (text "allow")).0 (ground (arith, acl_allows-cons r rules)),
    )
    | inr n ↦
        let (s, d, a) = acl_allows_sound rules (ground (arith, acl_allows-cons r rules)) in
        (s, later (λ ap. ground (arith, tested-Applies r ap)) d, a)
  ]

  acl_allows_complete :
      {rules : List Rule} {r : Rule}
      → Decides rules r
      → r.action ≡ text "allow"
      → acl_allows rules src dst proto dport ≡ true
  acl_allows_complete (here {r = r} {rules = rules} a) e =
      ground
        (arith, acl_allows-cons r rules, tested-Applies r a, text_beq_iff r.action (text "allow"))
  acl_allows_complete (later {r = r} {rules = rules} n d) e = elim (Bool-cases (tested r)) [
    | inl y ↦ absurd (n (Applies-of_tested r y))
    | inr z ↦ ground (arith, acl_allows-cons r rules, acl_allows_complete d e)
  ]

  -- A packet is allowed exactly when the first rule of the list that applies to it has the action
  -- "allow": a rule that is disabled, or names other hosts, another protocol or another port, is
  -- passed over, and with no rule left the packet is denied.
  pub acl_allows_iff :
      (rules : List Rule)
      → (acl_allows rules src dst proto dport ≡ true)
        ↔ ((r : Rule) × Decides rules r × (r.action ≡ text "allow"))
  acl_allows_iff rules = (acl_allows_sound rules, λ (r, d, a). acl_allows_complete d a)
