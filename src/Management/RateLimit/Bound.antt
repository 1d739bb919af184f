-- ===== src/Management/RateLimit/Bound.antt =====
-- How many attempts of one key pass, over any attempts of all keys.
use blinex.Prelude.{
  ℕ, suc, ◌+◌, ◌-◌, ◌*◌, ◌≤◌, ◌≡◌, refl, inl, inr, Bool, true, false, ◌&&◌, Option, none, some,
  List, [], ◌∷◌, arith, ltb, ◌==◌, if◌then◌else◌, Bool-cases,
}
use native.Mathlib.Nat.{add-zero}
use blinex.Prelude.Text.{Text, text_eq, text_beq_iff}
use blinex.Prelude.Dict.{
  get, kept, Distinct, get-put, get-put_self, get-evict, Distinct-evict, Distinct-put, beq_refl,
}
use blinex.Management.RateLimit.{
  TokenBucket, RateLimiter, token, rl_capacity, second, clean, spend, refilled, allow,
  new_rate_limiter,
}

-- Attempts with their times, and how many of one key pass.
unfoldable pub passes : RateLimiter → Text → List (ℕ × Text) → ℕ
passes r key [] = 0
passes r key ((now, k) ∷ attempts) =
    let (ok, r') = allow r k now in
    let rest = passes r' key attempts in if ok && k == key then suc rest else rest

-- The times do not run backwards, from a first to a last one.
abbrev pub Clocked : ℕ → List (ℕ × Text) → ℕ → Type 0
Clocked from [] until = from ≤ until
Clocked from ((now, k) ∷ attempts) until = (from ≤ now) × Clocked now attempts until

-- What a bucket says of the attempts that have passed since `start`.
abbrev Accounts : ℕ → ℕ → ℕ → Option TokenBucket → Type 0
Accounts start now count none = token * count ≤ now - start
Accounts start now count (some b) =
    (start ≤ b.last_time)
    × (b.last_time ≤ now)
    × (b.tokens + token * count ≤ rl_capacity + (b.last_time - start))

record Inv (key : Text) (start now count : ℕ) (r : RateLimiter) : Type 0 where
  since : start ≤ now
  distinct : Distinct r.buckets
  account : Accounts start now count (get r.buckets key)

Accounts-later :
    (start now later count : ℕ) (o : Option TokenBucket)
    → now ≤ later
    → Accounts start now count o
    → Accounts start later count o
Accounts-later start now later count none h a = omega arith
Accounts-later start now later count (some b) h a = omega arith

-- Eviction forgets only buckets that have been idle long enough to be full.
Accounts-kept :
    (start now count : ℕ) (o : Option TokenBucket)
    → Accounts start now count o
    → Accounts start now count (kept (λ b. ltb (300 * second) (now - b.last_time)) o)
Accounts-kept start now count none a = a
Accounts-kept start now count (some b) a =
    elim (Bool-cases (ltb (300 * second) (now - b.last_time))) [
      | inl y ↦ rw y (ground arith)
      | inr n ↦ rw n a
    ]

clean-Inv :
    (key : Text) (start now count : ℕ) (r : RateLimiter)
    → Inv key start now count r
    → Inv key start now count (clean r now)
clean-Inv key start now count r v = elim (Bool-cases (ltb (120 * second) (now - r.cleaned))) [
  | inr n ↦ unfold clean in rw n v
  | inl y ↦
      unfold clean in
      rw y (record {
        since = v.since;
        distinct = Distinct-evict _ r.buckets v.distinct;
        account =
            rw (get-evict (λ b. ltb (300 * second) (now - b.last_time)) r.buckets key v.distinct)
              (Accounts-kept start now count (get r.buckets key) v.account);
      })
]

-- One attempt, and one more passed if it is the key's and passes.
abbrev counted : Bool → ℕ → ℕ
counted b n = if b then n + 1 else n

spend-Inv_self :
    (key : Text) (start now count : ℕ) (r : RateLimiter)
    → Inv key start now count r
    → (o : Option TokenBucket) → Accounts start now count o
    → Inv key start now (counted (spend r key o now).0 count) (spend r key o now).1
spend-Inv_self key start now count r v none a =
    unfold spend in
    record {
      since = v.since;
      distinct = Distinct-put r.buckets key _ v.distinct;
      account =
          rw (get-put_self r.buckets key (record { tokens = rl_capacity - token; last_time = now }))
            (omega (arith, v.since));
    }
spend-Inv_self key start now count r v (some b) a = elim (Bool-cases (ltb (refilled b now) token)) [
  | inl y ↦
      unfold spend in
      rw y (record {
        since = v.since;
        distinct = Distinct-put r.buckets key _ v.distinct;
        account =
            rw (get-put_self r.buckets key (record { tokens = refilled b now; last_time = now }))
              (unfold refilled in ground (arith, v.since));
      })
  | inr n ↦
      unfold spend in
      rw n (record {
        since = v.since;
        distinct = Distinct-put r.buckets key _ v.distinct;
        account =
            rw
              (get-put_self r.buckets key
                (record { tokens = refilled b now - token; last_time = now }))
              (unfold refilled in ground (arith, v.since));
      })
]

spend-Inv_ne :
    (key k : Text) (start now count : ℕ) (r : RateLimiter)
    → Inv key start now count r
    → k == key ≡ false
    → (o : Option TokenBucket) → Inv key start now count (spend r k o now).1
unfolding spend
spend-Inv_ne key k start now count r v ne none = record {
  since = v.since;
  distinct = Distinct-put r.buckets k _ v.distinct;
  account = rw (get-put r.buckets k key _, ne) v.account;
}
spend-Inv_ne key k start now count r v ne (some b) =
    elim (Bool-cases (ltb (refilled b now) token)) [
      | inl y ↦ rw y (record {
        since = v.since;
        distinct = Distinct-put r.buckets k _ v.distinct;
        account = rw (get-put r.buckets k key _, ne) v.account;
      })
      | inr n ↦ rw n (record {
        since = v.since;
        distinct = Distinct-put r.buckets k _ v.distinct;
        account = rw (get-put r.buckets k key _, ne) v.account;
      })
    ]

counted_self : (b : Bool) (n : ℕ) → counted (b && true) n ≡ counted b n
counted_self true n = refl
counted_self false n = refl

counted_ne : (b : Bool) (n : ℕ) → counted (b && false) n ≡ n
counted_ne true n = refl
counted_ne false n = refl

allow-Inv :
    (key k : Text) (start now count : ℕ) (r : RateLimiter)
    → Inv key start now count r
    → Inv key start now (counted ((allow r k now).0 && k == key) count) (allow r k now).1
allow-Inv key k start now count r v =
    let c = clean-Inv key start now count r v in
    elim (Bool-cases (k == key)) [
      | inl same ↦
          rw ((text_beq_iff k key).0 same, beq_refl key, counted_self)
            (unfold allow in
              spend-Inv_self key start now count (clean r now) c (get (clean r now).buckets key)
                c.account)
      | inr other ↦
          rw (other, counted_ne)
            (unfold allow in
              spend-Inv_ne key k start now count (clean r now) c other
                (get (clean r now).buckets k))
    ]

Inv-later :
    (key : Text) (start now later count : ℕ) (r : RateLimiter)
    → now ≤ later
    → Inv key start now count r
    → Inv key start later count r
Inv-later key start now later count r h v = record {
  since = omega (arith, v.since);
  distinct = v.distinct;
  account = Accounts-later start now later count (get r.buckets key) h v.account;
}

Accounts-bound :
    (start now count : ℕ) (o : Option TokenBucket)
    → start ≤ now
    → Accounts start now count o
    → token * count ≤ rl_capacity + (now - start)
Accounts-bound start now count none h a = omega arith
Accounts-bound start now count (some b) h a = omega arith

passes-cons :
    (r : RateLimiter) (key : Text) (count now : ℕ) (k : Text) (attempts : List (ℕ × Text))
    → count + passes r key ((now, k) ∷ attempts)
      ≡ counted ((allow r k now).0 && k == key) count + passes (allow r k now).1 key attempts
unfolding passes
passes-cons r key count now k attempts = elim (Bool-cases ((allow r k now).0 && k == key)) [
  | inl y ↦ rw y (omega arith)
  | inr n ↦ rw n (omega arith)
]

passes_bound_from :
    (key : Text) (start now count : ℕ) (r : RateLimiter) (attempts : List (ℕ × Text)) (until : ℕ)
    → Inv key start now count r
    → Clocked now attempts until
    → token * (count + passes r key attempts) ≤ rl_capacity + (until - start)
passes_bound_from key start now count r [] until v c =
    let w = Inv-later key start now until count r c v in
    let b = Accounts-bound start until count (get r.buckets key) w.since w.account in
    unfold passes in rw add-zero b
passes_bound_from key start now count r ((at, k) ∷ attempts) until v c =
    rw (passes-cons r key count at k attempts) (
      passes_bound_from key start at (counted ((allow r k at).0 && k == key) count) (allow r k at).1
        attempts until (allow-Inv key k start at count r (Inv-later key start now at count r c.0 v))
        c.1)

-- Of any attempts of any keys that a new limiter sees, with times that do not run backwards, those of
-- one key that pass are at most 5 and one for each 12 seconds since the start: eviction of idle
-- buckets gives no key more than that.
pub passes_bound :
    (key : Text) (start until : ℕ) (attempts : List (ℕ × Text))
    → Clocked start attempts until
    → token * passes (new_rate_limiter start) key attempts ≤ rl_capacity + (until - start)
passes_bound key start until attempts c =
    omega
      (arith, passes_bound_from key start start 0 (new_rate_limiter start) attempts until new-Inv c)
  where
    new-Inv : Inv key start start 0 (new_rate_limiter start)
    new-Inv =
        unfold new_rate_limiter get in
        record { since = omega arith; distinct = tt; account = omega arith }
