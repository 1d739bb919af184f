-- ===== src/Management/Store/Order.antt =====
-- management/internal/store/memory/store.go, `GetRulesByAccount`: which rules it lists, and in which
-- order.
use blinex.Prelude.{
  ℕ, ◌≤◌, ◌≡◌, ◌↔◌, ◌⊎◌, inl, inr, List, [], ◌∷◌, arith, leb, ◌==◌, nat_eq, Bool-cases, keep,
}
use blinex.Prelude.Text.{Text, text_eq, text_beq_iff}
use blinex.Management.Domain.{Rule}
use blinex.Management.Store.{Store, values, insert_by, sort_by, get_rules_by_account}

abbrev pub Mem : {A : Type 0} → A → List A → Type 0
Mem a [] = ⊥
Mem a (x ∷ xs) = (x ≡ a) ⊎ Mem a xs

-- A bound below all elements, by a number of each.
abbrev pub Below {ℓ} : {A : Type ℓ} → (A → ℕ) → ℕ → List A → Type 0
Below f n [] = Unit
Below f n (x ∷ xs) = (n ≤ f x) × Below f n xs

abbrev pub Ascending {ℓ} : {A : Type ℓ} → (A → ℕ) → List A → Type 0
Ascending f [] = Unit
Ascending f (x ∷ xs) = Below f (f x) xs × Ascending f xs

module _ {A : Type 0} (f : A → ℕ) where
  Below-mono : (m n : ℕ) (l : List A) → m ≤ n → Below f n l → Below f m l
  Below-mono m n [] h b = tt
  Below-mono m n (x ∷ l) h b = (omega (arith, b.0), Below-mono m n l h b.1)

  Below-insert_by :
      (n : ℕ) (a : A) (l : List A) → n ≤ f a → Below f n l → Below f n (insert_by f a l)
  unfolding insert_by
  Below-insert_by n a [] h b = (h, tt)
  Below-insert_by n a (x ∷ l) h b = ground (arith, Below-insert_by n a l h b.1)

  Ascending-insert_by : (a : A) (l : List A) → Ascending f l → Ascending f (insert_by f a l)
  unfolding insert_by
  Ascending-insert_by a [] s = (tt, tt)
  Ascending-insert_by a (x ∷ l) s = elim (Bool-cases (leb (f a) (f x))) [
    | inl y ↦ rw y (((ground arith, Below-mono (f a) (f x) l (ground arith) s.0), s))
    | inr n ↦ rw n (Below-insert_by (f x) a l (ground arith) s.0, Ascending-insert_by a l s.1)
  ]

  Ascending-sort_by : (l : List A) → Ascending f (sort_by f l)
  unfolding sort_by
  Ascending-sort_by [] = tt
  Ascending-sort_by (a ∷ l) = Ascending-insert_by a (sort_by f l) (Ascending-sort_by l)

  Mem-insert_by : (a b : A) (l : List A) → Mem b (insert_by f a l) ↔ Mem b (a ∷ l)
  unfolding insert_by
  Mem-insert_by a b [] = (λ x. x, λ x. x)
  Mem-insert_by a b (x ∷ l) = elim (Bool-cases (leb (f a) (f x))) [
    | inl y ↦ rw y (λ x. x, λ x. x)
    | inr n ↦ rw n (ground (arith, Mem-insert_by a b l))
  ]

  Mem-sort_by : (b : A) (l : List A) → Mem b (sort_by f l) ↔ Mem b l
  unfolding sort_by
  Mem-sort_by b [] = (λ x. x, λ x. x)
  Mem-sort_by b (a ∷ l) = ground (arith, Mem-insert_by a b (sort_by f l), Mem-sort_by b l)

Mem-keep :
    (account : Text) (r : Rule) (l : List Rule)
    → Mem r (keep (λ x. x.account_id == account) l) ↔ (Mem r l × (r.account_id ≡ account))
unfolding keep
Mem-keep account r [] = (λ x. elim x [ ], λ x. elim x.0 [ ])
Mem-keep account r (x ∷ l) =
    let rest = Mem-keep account r l in
    let same = text_beq_iff x.account_id account in
    elim (Bool-cases (x.account_id == account)) [
      | inl y ↦ rw y (
        λ m. elim m [
          | inl e ↦ (inl e, cc (e, same.0 y))
          | inr t ↦ (inr (rest.0 t).0, (rest.0 t).1)
        ],
        λ m. elim m.0 [ inl e ↦ inl e | inr t ↦ inr (rest.1 (t, m.1)) ],
      )
      | inr n ↦ rw n (
        λ m. (inr (rest.0 m).0, (rest.0 m).1),
        λ m. elim m.0 [
          | inl e ↦ absurd (let f : x.account_id ≡ account = cc (e, m.1) in cc (n, same.1 f))
          | inr t ↦ rest.1 (t, m.1)
        ],
      )
    ]

-- The rules listed for an account come in ascending priority, and are the stored rules of that
-- account and no others.
pub get_rules_by_account-Ascending :
    (s : Store) (account : Text) (r : Rule)
    → Ascending (λ x. x.priority) (get_rules_by_account s account)
      × (Mem r (get_rules_by_account s account)
          ↔ (Mem r (values s.rules) × (r.account_id ≡ account)))
unfolding get_rules_by_account
get_rules_by_account-Ascending s account r =
    let l = keep (λ (x : Rule). x.account_id == account) (values s.rules) in
    (
      Ascending-sort_by (λ x. x.priority) l,
      ground
          (arith, Mem-sort_by (λ (x : Rule). x.priority) r l, Mem-keep account r (values s.rules)),
    )
