-- ===== src/Engine/Blocklist/Current.antt =====
-- The feed of management/internal/blocklist/blocklist.go, `GetBlocklist` of
-- management/internal/grpcserver/server.go, `pollBlocklist` of client/internal/engine/engine.go and
-- the resolver of client/internal/dns/resolver.go, together.
use blinex.Prelude.{
  ◌≡◌, ◌≢◌, ◌↔◌, ◌⊎◌, inl, inr, refl, Bool, true, false, not, ◌&&◌, Option, none, some, List, [],
  ◌∷◌, ◌==◌, All, Some, ◌∙◌, sym, subst, arith, Bool-cases,
}
use blinex.Prelude.Text.{Text, text_eq, text_beq_iff, split}
use blinex.Dns.{Resolver, set_blocklist, is_blocked}
use blinex.Dns.Blocking.{Blocks, is_blocked_iff}
use blinex.Management.Store.Order.{Mem}
use blinex.Management.Login.{Result, speaks_for}
use blinex.Management.Feed.{
  FeedStore, new_store, parse, collect, hash_domains, refreshed, fetched, refresh, answer_from,
  get_blocklist,
}
use blinex.Management.Feed.Versions.{Solid, collect-Solid, same_version}
use blinex.Engine.Blocklist.{Poller, fetch}

Some-Mem : (P : Text → Type 0) (xs : List Text) → Some P xs → (d : Text) × Mem d xs × P d
Some-Mem P [] s = absurd s
Some-Mem P (x ∷ xs) (inl p) = (x, inl refl, p)
Some-Mem P (x ∷ xs) (inr s) = let (d, m, p) = Some-Mem P xs s in (d, inr m, p)

Mem-Some : (P : Text → Type 0) (xs : List Text) (d : Text) → Mem d xs → P d → Some P xs
Mem-Some P [] d m p = absurd m
Mem-Some P (x ∷ xs) d (inl e) p = inl (subst P (sym e) p)
Mem-Some P (x ∷ xs) d (inr m) p = inr (Mem-Some P xs d m p)

Some-same :
    (P : Text → Type 0) (xs ys : List Text)
    → ((d : Text) → Mem d xs ↔ Mem d ys)
    → Some P xs
    → Some P ys
Some-same P xs ys same s = let (d, m, p) = Some-Mem P xs s in Mem-Some P ys d ((same d).0 m) p

-- The feed of the control plane, and an agent that polls it.
pub record System : Type 0 where
  pub feed : FeedStore
  pub poller : Poller

-- No list on either side.
abbrev pub start : Resolver → System
start dns = record { feed = new_store; poller = record { known = []; dns = dns } }

pub data Event : Type 0 where
  -- a fetch of the feed, with its body if it got one
  fetching : Option Text → Event
  -- a poll of the agent, and whether the call gets through
  polling : Bool → Event

module _ (sha256_hex : Text → Text) (claims : Option Text) (key : Text) where
  unfoldable pub poll : System → Bool → System
  poll s true = record s {
    poller = fetch s.poller (get_blocklist (some s.feed) claims key s.poller.known);
  }
  poll s false = s

  unfoldable pub step : System → Event → System
  unfolding poll
  step s (Event.fetching body) = record s { feed = refresh sha256_hex s.feed body }
  step s (Event.polling through) = poll s through

  unfoldable pub run_system : System → List Event → System
  run_system s [] = s
  run_system s (x ∷ xs) = step (run_system s xs) x

  -- The poller has seen a list of the version that it names.
  abbrev Seen : Poller → Type 0
  Seen p =
      (ds : List Text) × (r : Resolver) × All Solid ds
      × (p.known ≡ hash_domains sha256_hex ds)
      × (p.dns ≡ set_blocklist r ds)

  record Inv (s : System) : Type 0 where
    solid : All Solid s.feed.domains
    named : (s.feed.version ≡ []) ⊎ (s.feed.version ≡ hash_domains sha256_hex s.feed.domains)
    seen : (s.poller.known ≡ []) ⊎ Seen s.poller

  parse-Solid : (body : Text) (ds : List Text) → parse body ≡ some ds → All Solid ds
  unfolding parse
  parse-Solid body ds h =
      let lines = split b'\n' body in
      let e : some (collect lines []) ≡ some ds = ground (arith, h) in
      let f : collect lines [] ≡ ds = cc e in subst (All Solid) f (collect-Solid lines [] tt)

  refreshed-Inv :
      (s : System) (o : Option (List Text))
      → ((ds : List Text) → o ≡ some ds → All Solid ds)
      → Inv s
      → Inv (record s { feed = refreshed sha256_hex s.feed o })
  unfolding refreshed
  refreshed-Inv s none h v = record { solid = v.solid; named = v.named; seen = v.seen }
  refreshed-Inv s (some ds) h v = record { solid = h ds refl; named = inr refl; seen = v.seen }

  fetched-Solid :
      (body : Option Text) (ds : List Text) → fetched sha256_hex body ≡ some ds → All Solid ds
  unfolding fetched
  fetched-Solid none ds h = absurd (cc h)
  fetched-Solid (some body) ds h = parse-Solid body ds h

  abbrev fetched_by : System → Poller
  fetched_by s = fetch s.poller (Result.done (answer_from (some s.feed) s.poller.known))

  -- What an answer makes of a poller.
  answered :
      (s : System)
      → ((fetched_by s ≡ s.poller) × (s.feed.version ≢ [] → s.poller.known ≡ s.feed.version))
        ⊎ ((s.feed.version ≢ [])
            × (fetched_by s ≡ record {
              known = s.feed.version;
              dns = set_blocklist s.poller.dns s.feed.domains;
            }))
  unfolding fetch answer_from
  answered s = elim (Bool-cases (s.feed.version == [])) [
    | inl y ↦ inl (
      ground (arith, y, text_beq_iff [] []),
      λ ne. absurd (ne ((text_beq_iff s.feed.version []).0 y)),
    )
    | inr n ↦
        let ne : s.feed.version ≢ [] = (λ e. cc ((text_beq_iff s.feed.version []).1 e, n)) in
        elim (Bool-cases (not (s.poller.known == []) && s.poller.known == s.feed.version)) [
          | inl y ↦
              inl
                (rw (n, y) refl, λ _. ground (arith, y, text_beq_iff s.poller.known s.feed.version))
          | inr m ↦ inr (ne, rw (n, m) (rw n refl))
        ]
  ]

  fetched_by-Inv : (s : System) → Inv s → Inv (record s { poller = fetched_by s })
  fetched_by-Inv s v = elim (answered s) [
    | inl a ↦ rw a.0 (record { solid = v.solid; named = v.named; seen = v.seen })
    | inr b ↦ rw b.1 (elim v.named [
      | inl e ↦ absurd (b.0 e)
      | inr e ↦ record {
        solid = v.solid;
        named = v.named;
        seen = inr (s.feed.domains, s.poller.dns, v.solid, e, refl);
      }
    ])
  ]

  module _ (own : speaks_for claims key ≡ true) (keyed : key ≢ []) where
    reached : (s : System) → poll s true ≡ record s { poller = fetched_by s }
    unfolding poll get_blocklist
    reached s = ground (arith, own, keyed, text_beq_iff key [])

    step-Inv : (s : System) (x : Event) → Inv s → Inv (step s x)
    unfolding step refresh
    step-Inv s (Event.fetching body) v =
        refreshed-Inv s (fetched sha256_hex body) (fetched-Solid body) v
    step-Inv s (Event.polling true) v = rw (reached s) (fetched_by-Inv s v)
    step-Inv s (Event.polling false) v = unfold poll in v

    run-Inv : (s : System) (xs : List Event) → Inv s → Inv (run_system s xs)
    unfolding run_system
    run-Inv s [] v = v
    run-Inv s (x ∷ xs) v = step-Inv (run_system s xs) x (run-Inv s xs v)

    current_list :
        ((x y : Text) → sha256_hex x ≡ sha256_hex y → x ≡ y)
        → (s : System) → Inv s
        → s.feed.version ≢ []
        → (name : Text)
        → (is_blocked (fetched_by s).dns name ≡ true) ↔ Some (λ d. Blocks name d) s.feed.domains
    current_list injective s v ne name = elim (answered s) [
      | inr b ↦ rw b.1 (is_blocked_iff s.poller.dns s.feed.domains name)
      | inl a ↦ rw a.0 (elim v.seen [
        | inl e ↦ absurd (ne (sym (a.1 ne) ∙ e))
        | inr (ds, r, solid, e, dns) ↦
            let version : s.feed.version ≡ hash_domains sha256_hex s.feed.domains = elim v.named [
              | inl x ↦ absurd (ne x)
              | inr x ↦ x
            ] in
            let same =
              same_version sha256_hex injective ds s.feed.domains solid v.solid
                (sym e ∙ a.1 ne ∙ version) in
            let iff = is_blocked_iff r ds name in
            rw dns (
              λ h. Some-same (λ d. Blocks name d) ds s.feed.domains same (iff.0 h),
              λ h. iff.1 (
                  Some-same (λ d. Blocks name d) s.feed.domains ds (λ d. ((same d).1, (same d).0))
                    h),
            )
      ])
    ]

    -- After any history of fetches of the feed, of which some fail, and of polls of an agent, of
    -- which some do not get through, a poll that does leaves the agent blocking exactly the names
    -- of the control plane's present list and those under them, if it has a list at all, although
    -- the list is not sent when its version is the one that the agent names; where the agent polls
    -- with its own token and equal hashes mean equal texts.
    pub run_system-current :
        ((x y : Text) → sha256_hex x ≡ sha256_hex y → x ≡ y)
        → (dns : Resolver) (xs : List Event) (name : Text)
        → (run_system (start dns) xs).feed.version ≢ []
        → (is_blocked (run_system (start dns) (Event.polling true ∷ xs)).poller.dns name ≡ true)
          ↔ Some (λ d. Blocks name d) (run_system (start dns) xs).feed.domains
    unfolding run_system step
    run_system-current injective dns xs name ne =
        let s0 = start dns in
        let s = run_system s0 xs in
        let v0 : Inv s0 = record { solid = tt; named = inl refl; seen = inl refl } in
        subst
          (λ (z : System).
            (is_blocked z.poller.dns name ≡ true) ↔ Some (λ d. Blocks name d) s.feed.domains)
          (sym (reached s)) (current_list injective s (run-Inv s0 xs v0) ne name)
