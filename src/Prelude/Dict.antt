-- ===== src/Prelude/Dict.antt =====
-- Go's built-in maps as association lists: what the code reads of a map is its value at a key, its
-- size, and all its entries in some order.
use mathlib.Core.Path.{◌≡◌, refl}
use mathlib.Core.Bool.{Bool, true}
use mathlib.Core.Option.{Option, none, some}
use mathlib.Core.List.{List, [], ◌∷◌}
use Prim.Native.Nat.{◌+◌, ◌≤◌}
use native.Mathlib.Omega.{arith}
use blinex.Prelude.Tests.{Eq, ◌==◌, if◌then◌else◌}
use blinex.Prelude.Lists.{length}

abbrev pub Dict {ℓ κ} : Type ℓ → Type κ → Type (ℓ ⊔ κ)
Dict K V = List (K × V)

pub beq_refl {ℓ} : {K : Type ℓ} ⦃e : Eq K⦄ (k : K) → k == k ≡ true
beq_refl ⦃e⦄ k = (e.beq_iff k k).1 refl

-- What eviction leaves of the value at a key.
abbrev pub kept {κ} : {V : Type κ} → (V → Bool) → Option V → Option V
kept p none = none
kept p (some v) = if p v then none else some v

module _ {ℓ κ} {K : Type ℓ} {V : Type κ} ⦃e : Eq K⦄ where
  -- `v, ok := m[k]`
  unfoldable pub get : Dict K V → K → Option V
  get [] k = none
  get ((j, v) ∷ m) k = if j == k then some v else get m k

  -- `delete(m, k)`
  unfoldable pub remove : Dict K V → K → Dict K V
  remove [] k = []
  remove ((j, v) ∷ m) k = if j == k then remove m k else (j, v) ∷ remove m k

  -- `m[k] = v`
  unfoldable pub put : Dict K V → K → V → Dict K V
  unfolding remove
  put m k v = (k, v) ∷ remove m k

  -- `for k, v := range m { if … { delete(m, k) } }`: the entries that do not pass the test
  unfoldable pub evict : (V → Bool) → Dict K V → Dict K V
  evict p [] = []
  evict p ((j, v) ∷ m) = if p v then evict p m else (j, v) ∷ evict p m

  pub get-remove :
      (m : Dict K V) (k j : K) → get (remove m k) j ≡ (if k == j then none else get m j)
  unfolding get remove
  get-remove [] k j = ground arith
  get-remove ((i, v) ∷ m) k j =
      ground (arith, get-remove m k j, e.beq_iff i k, e.beq_iff i j, e.beq_iff k j)

  pub get-put :
      (m : Dict K V) (k j : K) (v : V) → get (put m k v) j ≡ (if k == j then some v else get m j)
  unfolding get put
  get-put m k j v = ground (arith, get-remove m k j)

  pub get-put_self : (m : Dict K V) (k : K) (v : V) → get (put m k v) k ≡ some v
  get-put_self m k v = rw (get-put m k k v) (rw (beq_refl k))

  pub length-remove-le : (m : Dict K V) (k : K) → length (remove m k) ≤ length m
  unfolding remove
  length-remove-le [] k = omega arith
  length-remove-le ((j, v) ∷ m) k = ground (arith, length-remove-le m k)

  pub length-put-le : (m : Dict K V) (k : K) (v : V) → length (put m k v) ≤ length m + 1
  unfolding put
  length-put-le m k v = omega (arith, length-remove-le m k)

  -- The keys of a map are distinct: no key stands a second time.
  abbrev pub Distinct : Dict K V → Type (ℓ ⊔ κ)
  Distinct [] = Unit
  Distinct ((j, v) ∷ m) = (get m j ≡ none) × Distinct m

  pub get-evict :
      (p : V → Bool) (m : Dict K V) (k : K) → Distinct m → get (evict p m) k ≡ kept p (get m k)
  unfolding get evict
  get-evict p [] k d = refl
  get-evict p ((j, v) ∷ m) k d = ground (arith, get-evict p m k d.1, e.beq_iff j k)

  get-evict-none :
      (p : V → Bool) (m : Dict K V) (k : K) → Distinct m → get m k ≡ none → get (evict p m) k ≡ none
  get-evict-none p m k d h = rw (get-evict p m k d, h)

  pub Distinct-evict : (p : V → Bool) (m : Dict K V) → Distinct m → Distinct (evict p m)
  unfolding evict
  Distinct-evict p [] d = tt
  Distinct-evict p ((j, v) ∷ m) d =
      ground (arith, Distinct-evict p m d.1, get-evict-none p m j d.1 d.0)

  get-remove-none : (m : Dict K V) (k j : K) → get m j ≡ none → get (remove m k) j ≡ none
  get-remove-none m k j h = rw (get-remove m k j) (ground arith)

  pub Distinct-remove : (m : Dict K V) (k : K) → Distinct m → Distinct (remove m k)
  unfolding remove
  Distinct-remove [] k d = tt
  Distinct-remove ((j, v) ∷ m) k d =
      ground (arith, Distinct-remove m k d.1, get-remove-none m k j d.0)

  pub Distinct-put : (m : Dict K V) (k : K) (v : V) → Distinct m → Distinct (put m k v)
  unfolding put
  Distinct-put m k v d = (rw (get-remove m k k, beq_refl k), Distinct-remove m k d)
