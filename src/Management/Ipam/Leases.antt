-- ===== src/Management/Ipam/Leases.antt =====
-- Leases are stable and are never shared.
use blinex.Prelude.{
  ◌+◌, ◌%◌, ◌^◌, ◌≤◌, ◌<◌, ◌≡◌, ◌∙◌, ◌≢◌, inl, inr, Option, none, some, List, [], ◌∷◌, arith, leb,
  Bool-cases, Option-cases,
}
use blinex.Prelude.Text.{Text, text_eq, text_beq_iff}
use blinex.Prelude.Dict.{get, put, get-put, get-put_self, get-remove}
use blinex.Netip.{Addr}
use blinex.Management.Ipam.{Ipam, base, broadcast, allocate_host, release}

-- Every lease is a host of the network below `next`, and no two keys share one.
pub record IsValid (i : Ipam) : Type 0 where
  pub in_network : base i.network < i.next
  pub below : i.next ≤ broadcast i.network
  pub width : broadcast i.network < 2 ^ 32
  pub leased_low : (k : Text) (h : Addr) → get i.leased k ≡ some h → base i.network < h
  pub leased_below : (k : Text) (h : Addr) → get i.leased k ≡ some h → h < i.next
  pub unshared : (j k : Text) (h : Addr) → get i.leased j ≡ some h → get i.leased k ≡ some h → j ≡ k

-- What `Allocate` does, as equations, on a valid pool.
data Allocated (i : Ipam) (key : Text) : Option Addr → Ipam → Type 0 where
  kept : {h : Addr} → get i.leased key ≡ some h → Allocated i key (some h) i
  exhausted : get i.leased key ≡ none → broadcast i.network ≤ i.next → Allocated i key none i
  fresh :
      get i.leased key ≡ none
      → i.next < broadcast i.network
      → Allocated i key
          (some i.next)
          (record i { next = (i.next + 1) % 2 ^ 32; leased = put i.leased key i.next })

allocate_host-Allocated :
    (i : Ipam) (key : Text) → Allocated i key (allocate_host i key).0 (allocate_host i key).1
allocate_host-Allocated i key = elim (Option-cases (get i.leased key)) [
  | inr (h, e) ↦ unfold allocate_host in rw e (kept e)
  | inl e ↦ elim (Bool-cases (leb (broadcast i.network) i.next)) [
    | inl y ↦ unfold allocate_host in rw (e, y) (exhausted e (ground arith))
    | inr n ↦ unfold allocate_host in rw (e, n) (fresh e (ground arith))
  ]
]

Allocated-IsValid :
    {i : Ipam} {key : Text} {o : Option Addr} {i' : Ipam}
    → Allocated i key o i'
    → IsValid i
    → IsValid i'
Allocated-IsValid (kept e) v = v
Allocated-IsValid (exhausted e x) v = v
Allocated-IsValid {i} {key} (fresh e room) v = record {
  in_network = omega (arith, v.in_network, v.width);
  below = omega (arith, v.width);
  width = v.width;
  leased_low =
      λ k h g. ground (arith, get-put i.leased key k i.next, v.leased_low k h, v.in_network);
  leased_below =
      λ k h g. ground (arith, get-put i.leased key k i.next, v.leased_below k h, v.width);
  unshared = λ j k h g g'. ground (
    arith,
    get-put i.leased key j i.next,
    get-put i.leased key k i.next,
    text_beq_iff key j,
    text_beq_iff key k,
    v.leased_below j h,
    v.leased_below k h,
    v.unshared j k h,
  );
}

release-IsValid : {i : Ipam} (key : Text) → IsValid i → IsValid (release i key)
unfolding release
release-IsValid {i} key v = record {
  in_network = v.in_network;
  below = v.below;
  width = v.width;
  leased_low = λ k h g. ground (arith, get-remove i.leased key k, v.leased_low k h);
  leased_below = λ k h g. ground (arith, get-remove i.leased key k, v.leased_below k h);
  unshared = λ j k h g g'.
      ground (arith, get-remove i.leased key j, get-remove i.leased key k, v.unshared j k h);
}

-- A call of the running server; peers are preloaded before it.
pub data Call : Type 0 where
  allocates releases : Text → Call

unfoldable pub step : Ipam → Call → Ipam
step i (allocates key) = (allocate_host i key).1
step i (releases key) = release i key

unfoldable pub run : Ipam → List Call → Ipam
run i [] = i
run i (c ∷ cs) = run (step i c) cs

step-IsValid : (i : Ipam) (c : Call) → IsValid i → IsValid (step i c)
unfolding step
step-IsValid i (allocates key) v = Allocated-IsValid (allocate_host-Allocated i key) v
step-IsValid i (releases key) v = release-IsValid key v

-- Any calls of `Allocate` and `Release` keep a valid pool valid: every lease is a host of the network,
-- and no two keys share one. Of `PreloadPeers`, which comes before them, nothing is said here.
pub run-IsValid : (i : Ipam) (cs : List Call) → IsValid i → IsValid (run i cs)
run-IsValid i [] v = unfold run in v
run-IsValid i (c ∷ cs) v = run_rest (run-IsValid (step i c) cs (step-IsValid i c v))
  where
    run_rest : IsValid (run (step i c) cs) → IsValid (run i (c ∷ cs))
    run_rest h = unfold run in h

Allocated_bounds :
    {i : Ipam} {key : Text} {o : Option Addr} {i' : Ipam} (h : Addr)
    → Allocated i key o i'
    → IsValid i
    → o ≡ some h
    → (base i.network < h) × (h < broadcast i.network)
Allocated_bounds {i} {key} h (kept {h = g} e) v s =
    ground (arith, v.leased_low key g e, v.leased_below key g e, v.below)
Allocated_bounds h (exhausted e x) v s = absurd (ground arith)
Allocated_bounds h (fresh e room) v s = ground (arith, v.in_network)

Allocated_lease :
    {i : Ipam} {key : Text} {o : Option Addr} {i' : Ipam} (h : Addr)
    → Allocated i key o i'
    → o ≡ some h
    → get i'.leased key ≡ some h
Allocated_lease h (kept e) s = e ∙ s
Allocated_lease h (exhausted e x) s = absurd (ground arith)
Allocated_lease {i} {key} h (fresh e room) s = get-put_self i.leased key i.next ∙ s

-- An address that is allocated is a host address of the network, neither its first address nor its
-- last, and it is leased to the key: allocating again for the key gives it again and changes nothing.
pub allocate_host_stable :
    (i : Ipam) (key : Text) (h : Addr)
    → IsValid i
    → (allocate_host i key).0 ≡ some h
    → (base i.network < h)
      × (h < broadcast i.network)
      × (allocate_host (allocate_host i key).1 key ≡ (some h, (allocate_host i key).1))
allocate_host_stable i key h v e =
    let a = allocate_host-Allocated i key in
    let b = Allocated_bounds h a v e in (b.0, b.1, again (Allocated_lease h a e))
  where
    again :
        get (allocate_host i key).1.leased key ≡ some h
        → allocate_host (allocate_host i key).1 key ≡ (some h, (allocate_host i key).1)
    again g = unfold allocate_host in rw g

-- Nobody but the key holds the address, and it will not be handed out as a fresh one.
record Reserved (key : Text) (h : Addr) (i : Ipam) : Type 0 where
  passed : h < i.next
  others : (k : Text) → get i.leased k ≡ some h → k ≡ key

Allocated-Reserved :
    {i : Ipam} {k : Text} {o : Option Addr} {i' : Ipam} (key : Text) (h : Addr)
    → Allocated i k o i'
    → IsValid i
    → Reserved key h i
    → Reserved key h i'
Allocated-Reserved key h (kept e) v r = r
Allocated-Reserved key h (exhausted e x) v r = r
Allocated-Reserved {i} {k} key h (fresh e room) v r = record {
  passed = omega (arith, r.passed, v.width);
  others = λ j g. ground (arith, get-put i.leased k j i.next, r.others j, r.passed);
}

step-Reserved :
    (i : Ipam) (c : Call) (key : Text) (h : Addr)
    → IsValid i
    → Reserved key h i
    → Reserved key h (step i c)
unfolding step release
step-Reserved i (allocates k) key h v r = Allocated-Reserved key h (allocate_host-Allocated i k) v r
step-Reserved i (releases k) key h v r = record {
  passed = r.passed;
  others = λ j g. ground (arith, get-remove i.leased k j, r.others j);
}

run-Reserved :
    (i : Ipam) (cs : List Call) (key : Text) (h : Addr)
    → IsValid i
    → Reserved key h i
    → Reserved key h (run i cs)
run-Reserved i [] key h v r = unfold run in r
run-Reserved i (c ∷ cs) key h v r =
    run_rest (run-Reserved (step i c) cs key h (step-IsValid i c v) (step-Reserved i c key h v r))
  where
    run_rest : Reserved key h (run (step i c) cs) → Reserved key h (run i (c ∷ cs))
    run_rest q = unfold run in q

-- An address that a key has once held is never allocated to another key, whatever is allocated and
-- released in between, the key's own lease included: `Release` does not return it to the pool.
pub never_reused :
    (i : Ipam) (cs : List Call) (key other : Text) (h : Addr)
    → IsValid i
    → get i.leased key ≡ some h
    → other ≢ key
    → (allocate_host (run i cs) other).0 ≢ some h
never_reused i cs key other h v g ne e = ne (
    (Allocated-Reserved key h (allocate_host-Allocated (run i cs) other) (run-IsValid i cs v) (
        run-Reserved i cs key h v (record {
          passed = v.leased_below key h g;
          others = λ k f. v.unshared k key h f g;
        }))).others
      other (Allocated_lease h (allocate_host-Allocated (run i cs) other) e))
