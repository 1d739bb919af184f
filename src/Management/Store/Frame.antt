-- ===== src/Management/Store/Frame.antt =====
-- management/internal/store/memory/store.go: what a change of a map leaves of the entries that are
-- not an account's.
use blinex.Prelude.{
  ◌≡◌, ◌≢◌, ◌↔◌, refl, inl, inr, none, some, arith, ◌==◌, Bool-cases, [], ◌∷◌, if◌then◌else◌, ap,
  ◌&&◌,
}
use blinex.Prelude.Text.{Text, text_eq, text_beq_iff}
use blinex.Prelude.Dict.{Dict, get, put, remove, get-put, get-remove, Distinct, beq_refl}
use blinex.Management.Domain.{SetupKey}
use blinex.Management.Store.{values, key_named}
use blinex.Management.Store.Order.{Mem}

module _ {V : Type 0} (owner : V → Text) (account : Text) where
  -- What stands at the key, if anything, is the account's.
  abbrev pub Own : Dict Text V → Text → Type 0
  Own m k = (old : V) → get m k ≡ some old → owner old ≡ account

  -- The entries of others are the same.
  abbrev pub Frame : Dict Text V → Dict Text V → Type 0
  Frame m m' = (j : Text) (w : V) → owner w ≢ account → (get m j ≡ some w) ↔ (get m' j ≡ some w)

  pub Frame-refl : (m : Dict Text V) → Frame m m
  Frame-refl m j w ne = (λ x. x, λ x. x)

  pub Frame-trans : (m n o : Dict Text V) → Frame m n → Frame n o → Frame m o
  Frame-trans m n o f g j w ne =
      (λ x. (g j w ne).0 ((f j w ne).0 x), λ x. (f j w ne).1 ((g j w ne).1 x))

  pub Frame-put :
      (m : Dict Text V) (k : Text) (v : V) → owner v ≡ account → Own m k → Frame m (put m k v)
  Frame-put m k v e own j w ne = rw (get-put m k j v) (elim (Bool-cases (k == j)) [
    | inl y ↦
        let same : k ≡ j = (text_beq_iff k j).0 y in
        rw y (
          λ x. absurd (ne (own w (rw same x))),
          λ x. absurd (ne (let f : v ≡ w = cc x in cc (ap owner f, e))),
        )
    | inr n ↦ rw n (λ x. x, λ x. x)
  ])

  pub Frame-remove : (m : Dict Text V) (k : Text) → Own m k → Frame m (remove m k)
  Frame-remove m k own j w ne = rw (get-remove m k j) (elim (Bool-cases (k == j)) [
    | inl y ↦
        let same : k ≡ j = (text_beq_iff k j).0 y in
        rw y (λ x. absurd (ne (own w (rw same x))), λ x. absurd (cc x))
    | inr n ↦ rw n (λ x. x, λ x. x)
  ])

  pub Own-none : (m : Dict Text V) (k : Text) → get m k ≡ none → Own m k
  Own-none m k h old g = absurd (cc (h, g))

  pub Own-some :
      (m : Dict Text V) (k : Text) (v : V) → get m k ≡ some v → owner v ≡ account → Own m k
  Own-some m k v h e old g =
      let s : some v ≡ some old = cc (h, g) in let f : v ≡ old = cc s in rw (← f) e

-- An entry behind one of another key.
module _ {V : Type 0} where
  get_behind :
      (k j : Text) (w : V) (m : Dict Text V) (v : V)
      → get m k ≡ none
      → get m j ≡ some v
      → get ((k, w) ∷ m) j ≡ some v
  unfolding get
  get_behind k j w m v d rest = elim (Bool-cases (k == j)) [
    | inl y ↦ absurd (
        let same : k ≡ j = (text_beq_iff k j).0 y in
        let g : get m k ≡ some v = rw same rest in cc (g, d))
    | inr n ↦ rw n rest
  ]

module _ {V : Type 0} (name : V → Text) where
  -- Each entry stands under its own name.
  abbrev pub Keyed : Dict Text V → Type 0
  Keyed m = (k : Text) (v : V) → get m k ≡ some v → name v ≡ k

  pub Keyed-put : (m : Dict Text V) (v : V) (k : Text) → name v ≡ k → Keyed m → Keyed (put m k v)
  Keyed-put m v k e keyed j w h =
      let g : (if k == j then some v else get m j) ≡ some w = rw (← get-put m k j v) h in
      elim (Bool-cases (k == j)) [
        | inl y ↦
            let s : some v ≡ some w = ground arith in
            let f : v ≡ w = cc s in cc (e, (text_beq_iff k j).0 y, ap name f)
        | inr n ↦ keyed j w (ground arith)
      ]

  pub Keyed-remove : (m : Dict Text V) (k : Text) → Keyed m → Keyed (remove m k)
  Keyed-remove m k keyed j w h =
      let g : (if k == j then none else get m j) ≡ some w = rw (← get-remove m k j) h in
      keyed j w (ground arith)

  -- A listed entry of a map of its kind stands under its name.
  pub get-Mem :
      (m : Dict Text V) (v : V) → Distinct m → Keyed m → Mem v (values m) → get m (name v) ≡ some v
  unfolding values
  get-Mem [] v d keyed h = elim h [ ]
  get-Mem ((k, w) ∷ m) v d keyed (inl e) =
      let here : get ((k, w) ∷ m) k ≡ some w = (unfold get in rw (beq_refl k) refl) in
      let at : name w ≡ k = keyed k w here in rw (← e, at) here
  get-Mem ((k, w) ∷ m) v d keyed (inr t) =
      let keyed' : Keyed m = (λ j u g. keyed j u (
        unfold get in
        elim (Bool-cases (k == j)) [
          | inl y ↦ absurd (
              let same : k ≡ j = (text_beq_iff k j).0 y in
              let g' : get m k ≡ some u = rw same g in cc (g', d.0))
          | inr n ↦ rw n g
        ])) in
      let rest : get m (name v) ≡ some v = get-Mem m v d.1 keyed' t in
      get_behind k (name v) w m v d.0 rest

-- The key that `DeleteSetupKey` finds holds a setup key of the account.
pub key_named_found :
    (m : Dict Text SetupKey) (account id k : Text)
    → Distinct m
    → key_named m account id ≡ some k
    → (sk : SetupKey) × (get m k ≡ some sk) × (sk.account_id ≡ account)
unfolding key_named
key_named_found [] account id k d h = absurd (cc h)
key_named_found ((j, v) ∷ m) account id k d h =
    elim (Bool-cases (v.id == id && v.account_id == account)) [
      | inl y ↦
          let e : some j ≡ some k = ground arith in
          let same : j ≡ k = cc e in
          (
            v,
            (unfold get in rw (← same) (rw (beq_refl j) refl)),
            ground (arith, text_beq_iff v.account_id account),
          )
      | inr n ↦
          let (sk, g, a) = key_named_found m account id k d.1 (ground arith) in
          (sk, get_behind j k v m sk d.0 g, a)
    ]
