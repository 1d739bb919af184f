-- ===== src/Management/Ipam/Restart.antt =====
-- The pool after a restart: `PreloadPeers` over the persisted peers.
use blinex.Prelude.{
  ◌+◌, ◌%◌, ◌^◌, ◌≤◌, ◌<◌, ◌≡◌, refl, ◌∙◌, ap, subst, ◌≢◌, inl, inr, Option, none, some, List, [],
  ◌∷◌, arith, leb, if◌then◌else◌, Option-cases, All, Some,
}
use blinex.Prelude.Text.{Text, text_eq, text_beq_iff}
use blinex.Prelude.Dict.{get, put, get-put, get-put_self}
use blinex.Netip.{Addr, Prefix, parse_addr}
use blinex.Management.Ipam.{Ipam, base, broadcast, allocate_host, restore, preload_peers}
use blinex.Management.Ipam.Leases.{IsValid}

-- A persisted peer: its key and its IP.
abbrev pub Saved : Type 0
Saved = Text × Text

-- The peer's IP, where it is one, is a host address of the network.
abbrev pub Fits : Prefix → Saved → Type 0
Fits network p = (h : Addr) → parse_addr p.1 ≡ some h → (base network < h) × (h < broadcast network)

abbrev pub Apart : Saved → Saved → Type 0
Apart p q = (q.0 ≢ p.0) × ((h : Addr) → parse_addr p.1 ≡ some h → parse_addr q.1 ≢ some h)

-- No two peers have one key or one IP.
abbrev pub AllApart : List Saved → Type 0
AllApart [] = Unit
AllApart (p ∷ ps) = All (Apart p) ps × AllApart ps

-- Nobody but the peer holds its IP.
abbrev IsFree : Ipam → Saved → Type 0
IsFree i p = (h : Addr) (k : Text) → parse_addr p.1 ≡ some h → get i.leased k ≡ some h → k ≡ p.0

restore-IsValid :
    (i : Ipam) (p : Saved)
    → IsValid i
    → Fits i.network p
    → IsFree i p
    → IsValid (restore i p.0 (parse_addr p.1))
restore-IsValid i p v fits free = elim (Option-cases (parse_addr p.1)) [
  | inl e ↦ unfold restore in rw e v
  | inr (h, e) ↦ unfold restore in rw e (placed h e (fits h e).0 (fits h e).1)
]
  where
    placed :
        (h : Addr)
        → parse_addr p.1 ≡ some h
        → base i.network < h
        → h < broadcast i.network
        → IsValid (record i {
          next = if leb i.next h then (h + 1) % 2 ^ 32 else i.next;
          leased = put i.leased p.0 h;
        })
    placed h e low high = record {
      in_network = ground (arith, v.in_network, v.width);
      below = ground (arith, v.below, v.width);
      width = v.width;
      leased_low = λ k a g. ground (arith, get-put i.leased p.0 k h, v.leased_low k a);
      leased_below = λ k a g. ground (arith, get-put i.leased p.0 k h, v.leased_below k a, v.width);
      unshared = λ j k a g g'. ground (
        arith,
        get-put i.leased p.0 j h,
        get-put i.leased p.0 k h,
        text_beq_iff p.0 j,
        text_beq_iff p.0 k,
        free h j e,
        free h k e,
        v.unshared j k a,
      );
    }

restore-network : (i : Ipam) (k : Text) (o : Option Addr) → (restore i k o).network ≡ i.network
unfolding restore
restore-network i k none = refl
restore-network i k (some h) = refl

restore-IsFree :
    (i : Ipam) (p q : Saved) → Apart p q → IsFree i q → IsFree (restore i p.0 (parse_addr p.1)) q
restore-IsFree i p q apart free h k e g = elim (Option-cases (parse_addr p.1)) [
  | inl n ↦ free h k e (unfold restore in rw n at g)
  | inr (a, s) ↦ placed a s (unfold restore in rw s at g)
]
  where
    placed : (a : Addr) → parse_addr p.1 ≡ some a → get (put i.leased p.0 a) k ≡ some h → k ≡ q.0
    placed a s g = ground (arith, get-put i.leased p.0 k a, free h k e, apart.1 a s)

restored-Free :
    (i : Ipam) (p : Saved) (ps : List Saved)
    → All (Apart p) ps
    → All (IsFree i) ps
    → All (IsFree (restore i p.0 (parse_addr p.1))) ps
restored-Free i p [] a f = tt
restored-Free i p (q ∷ ps) a f = (restore-IsFree i p q a.0 f.0, restored-Free i p ps a.1 f.1)

preload-IsValid :
    (i : Ipam) (ps : List Saved)
    → IsValid i
    → All (Fits i.network) ps
    → AllApart ps
    → All (IsFree i) ps
    → IsValid (preload_peers i ps)
preload-IsValid i [] v fits apart free = unfold preload_peers in v
preload-IsValid i ((k, ip) ∷ ps) v fits apart free = rest (
    preload-IsValid (restore i k (parse_addr ip)) ps (restore-IsValid i (k, ip) v fits.0 free.0)
      (rw (restore-network i k (parse_addr ip)) fits.1) apart.1
      (restored-Free i (k, ip) ps apart.0 free.1))
  where
    rest :
        IsValid (preload_peers (restore i k (parse_addr ip)) ps)
        → IsValid (preload_peers i ((k, ip) ∷ ps))
    rest h = unfold preload_peers in h

get-restore_ne :
    (i : Ipam) (j k : Text) (o : Option Addr)
    → j ≢ k
    → get (restore i j o).leased k ≡ get i.leased k
unfolding restore
get-restore_ne i j k none ne = refl
get-restore_ne i j k (some h) ne = ground (arith, get-put i.leased j k h, text_beq_iff j k)

get-preload-Apart :
    (i : Ipam) (p : Saved) (ps : List Saved)
    → All (Apart p) ps
    → get (preload_peers i ps).leased p.0 ≡ get i.leased p.0
get-preload-Apart i p [] a = unfold preload_peers in refl
get-preload-Apart i p ((j, ip) ∷ ps) a =
    rest (get-preload-Apart (restore i j (parse_addr ip)) p ps a.1)
  where
    rest :
        get (preload_peers (restore i j (parse_addr ip)) ps).leased p.0
          ≡ get (restore i j (parse_addr ip)).leased p.0
        → get (preload_peers i ((j, ip) ∷ ps)).leased p.0 ≡ get i.leased p.0
    rest h = unfold preload_peers in h ∙ get-restore_ne i j p.0 (parse_addr ip) a.0.0

preload_lease :
    (i : Ipam) (ps : List Saved) (p : Saved) (h : Addr)
    → AllApart ps
    → Some (λ q. q ≡ p) ps
    → parse_addr p.1 ≡ some h
    → get (preload_peers i ps).leased p.0 ≡ some h
preload_lease i [] p h apart at e = elim at [ ]
preload_lease i ((k, ip) ∷ ps) p h apart (inl here) e =
    unfold preload_peers in
    get-preload-Apart (restore i k (parse_addr ip)) p ps
      (subst (λ q. All (Apart q) ps) here apart.0)
    ∙ placed
  where
    placed : get (restore i k (parse_addr ip)).leased p.0 ≡ some h
    placed =
        rw (ap (λ (q : Saved). q.0) here, ap (λ (q : Saved). q.1) here, e)
          (unfold restore in get-put_self i.leased p.0 h)
preload_lease i ((k, ip) ∷ ps) p h apart (inr there) e =
    rest (preload_lease (restore i k (parse_addr ip)) ps p h apart.1 there e)
  where
    rest :
        get (preload_peers (restore i k (parse_addr ip)) ps).leased p.0 ≡ some h
        → get (preload_peers i ((k, ip) ∷ ps)).leased p.0 ≡ some h
    rest g = unfold preload_peers in g

-- After a restart the pool is valid, and a persisted peer that asks for an address gets the one that
-- it had: if the pool starts with no lease, the peers' IPs that parse are hosts of the network, and
-- no two peers share a key or an IP.
pub restart_keeps_address :
    (i : Ipam) (ps : List Saved) (p : Saved) (h : Addr)
    → IsValid i
    → ((k : Text) → get i.leased k ≡ none)
    → All (Fits i.network) ps
    → AllApart ps
    → Some (λ q. q ≡ p) ps
    → parse_addr p.1 ≡ some h
    → IsValid (preload_peers i ps)
      × (allocate_host (preload_peers i ps) p.0 ≡ (some h, preload_peers i ps))
restart_keeps_address i ps p h v no_lease fits apart at e =
    (preload-IsValid i ps v fits apart (all_free ps), kept (preload_lease i ps p h apart at e))
  where
    all_free : (ps : List Saved) → All (IsFree i) ps
    all_free = elim [ [] ↦ tt | q ∷ (qs → ih) ↦ ((λ a k s g. ground (arith, no_lease k)), ih) ]

    kept :
        get (preload_peers i ps).leased p.0 ≡ some h
        → allocate_host (preload_peers i ps) p.0 ≡ (some h, preload_peers i ps)
    kept g = unfold allocate_host in rw g

-- A persisted peer whose IP is at or past the end of the network, as after a change of the
-- configured network, uses the pool up: from then on no new key gets an address.
pub preload_past_end :
    (i : Ipam) (key ip new : Text) (h : Addr)
    → parse_addr ip ≡ some h
    → i.next ≤ h
    → broadcast i.network ≤ h + 1
    → h + 1 < 2 ^ 32
    → new ≢ key
    → get i.leased new ≡ none
    → (allocate_host (preload_peers i ((key, ip) ∷ [])) new).0 ≡ none
preload_past_end i key ip new h e past end width ne g =
    unfold allocate_host preload_peers in
    rw e (unfold restore in ground (arith, get-put i.leased key new h, text_beq_iff key new))
