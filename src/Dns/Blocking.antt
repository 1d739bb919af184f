-- ===== src/Dns/Blocking.antt =====
-- client/internal/dns/resolver.go, `SetBlocklist` and `isBlocked`: which names a list blocks.
use blinex.Prelude.{
  ℕ, sym, subst, ◌∙◌, Bool, true, false, List, [], ◌∷◌, ◌++◌, ◌==◌, nat_eq, nat_beq_iff,
  if◌then◌else◌, any, Some, ◌≡◌, ◌≢◌, ◌↔◌, ◌⊎◌, inl, inr, refl, arith, Bool-cases,
}
use blinex.Prelude.Text.{
  Text, text, text_eq, text_beq_iff, trim_last, split, join, join-split, split_ne_nil,
}
use blinex.Dns.{
  Resolver, dot, normal, blocked_names, set_blocklist, some_tail_blocked, is_blocked, is_empty,
}

-- `name` is the domain `d` or a subdomain of it.
abbrev pub Under : Text → Text → Type 0
Under d name = (name ≡ d) ⊎ ((pre : Text) × (name ≡ pre ++ dot ∷ d))

-- What stands behind each dot of a name.
parents : Text → List Text
parents [] = []
parents (c ∷ s) = if c == dot then s ∷ parents s else parents s

-- The names of the tails of a list of labels.
tails : List Text → List Text
tails [] = []
tails (l ∷ ls) = join dot (l ∷ ls) ∷ tails ls

tails-split_step :
    (c : ℕ) (s p : Text) (ps : List Text)
    → split dot s ≡ p ∷ ps
    → tails (split dot s) ≡ s ∷ parents s
    → tails (split dot (c ∷ s)) ≡ (c ∷ s) ∷ parents (c ∷ s)
unfolding split tails parents
tails-split_step c s p ps e h = elim (Bool-cases (c == dot)) [
  | inl y ↦
      let j : join dot ([] ∷ split dot s) ≡ c ∷ s = ground (arith, join-split dot (c ∷ s)) in
      ground (arith, j, h)
  | inr n ↦
      let k : split dot (c ∷ s) ≡ (c ∷ p) ∷ ps = ground (arith, e) in
      let j : join dot ((c ∷ p) ∷ ps) ≡ c ∷ s = cc (join-split dot (c ∷ s), k) in
      let t : tails (p ∷ ps) ≡ s ∷ parents s = cc (e, h) in ground (arith, k, j, t)
]

tails-split : (s : Text) → tails (split dot s) ≡ s ∷ parents s
tails-split [] = unfold split tails parents join in refl
tails-split (c ∷ s) =
    let (p, ps, e) = split_ne_nil dot s in tails-split_step c s p ps e (tails-split s)

abbrev Behind : Text → Text → Type 0
Behind d s = (pre : Text) × (s ≡ pre ++ dot ∷ d)

Behind-cons :
    (d s : Text) (c : ℕ) (b : Bool)
    → (c == dot) ≡ b
    → (Some (λ t. t ≡ d) (parents s) → Behind d s)
    → Some (λ t. t ≡ d) (if b then s ∷ parents s else parents s)
    → Behind d (c ∷ s)
Behind-cons d s c true h f (inl e) = ([], cc (e, (nat_beq_iff c dot).0 h))
Behind-cons d s c true h f (inr x) = let (pre, e) = f x in (c ∷ pre, cc e)
Behind-cons d s c false h f x = let (pre, e) = f x in (c ∷ pre, cc e)

parents_sound : (d s : Text) → Some (λ t. t ≡ d) (parents s) → Behind d s
unfolding parents
parents_sound d [] x = absurd x
parents_sound d (c ∷ s) x = Behind-cons d s c (c == dot) refl (parents_sound d s) x

parents_complete : (d pre : Text) → Some (λ t. t ≡ d) (parents (pre ++ dot ∷ d))
unfolding parents
parents_complete d [] = inl refl
parents_complete d (c ∷ pre) = elim (Bool-cases (c == dot)) [
  | inl y ↦ rw y (inr (parents_complete d pre))
  | inr n ↦ rw n (parents_complete d pre)
]

some_tail_blocked_lem :
    (bs ls : List Text)
    → (some_tail_blocked bs ls ≡ true)
      ↔ Some (λ t. any (λ b. b == t ++ text ".") bs ≡ true) (tails ls)
unfolding some_tail_blocked tails
some_tail_blocked_lem bs [] = (λ h. cc h, λ x. absurd x)
some_tail_blocked_lem bs (l ∷ ls) = ground (arith, some_tail_blocked_lem bs ls)

module _ {A : Type 0} where
  Some-map : {P Q : A → Type 0} (f : (a : A) → P a → Q a) (xs : List A) → Some P xs → Some Q xs
  Some-map f [] x = x
  Some-map f (a ∷ xs) (inl p) = inl (f a p)
  Some-map f (a ∷ xs) (inr x) = inr (Some-map f xs x)

Some-swap :
    {A B : Type 0} (R : A → B → Type 0) (xs : List A) (ys : List B)
    → Some (λ x. Some (λ y. R x y) ys) xs
    → Some (λ y. Some (λ x. R x y) xs) ys
Some-swap R [] ys x = absurd x
Some-swap R (a ∷ xs) ys (inl x) = Some-map (λ y r. inl r) ys x
Some-swap R (a ∷ xs) ys (inr x) = Some-map (λ y r. inr r) ys (Some-swap R xs ys x)

snoc_injective : (s t : Text) → s ++ text "." ≡ t ++ text "." → s ≡ t
snoc_injective [] [] e = refl
snoc_injective [] (c ∷ []) e = cc e
snoc_injective [] (c ∷ b ∷ t) e = cc e
snoc_injective (c ∷ []) [] e = cc e
snoc_injective (c ∷ b ∷ s) [] e = cc e
snoc_injective (c ∷ s) (b ∷ t) e =
    let h : s ++ text "." ≡ t ++ text "." = cc e in
    let k : c ≡ b = cc e in cc (k, snoc_injective s t h)

-- The entry of the list that a name is under.
abbrev Hits : Text → Text → Type 0
Hits d t = (normal d ≢ []) × (t ≡ normal d)

any-names :
    (t : Text) (ds : List Text)
    → (any (λ b. b == t ++ text ".") (blocked_names ds) ≡ true) ↔ Some (λ d. Hits d t) ds
unfolding any blocked_names
any-names t [] = (λ h. cc h, λ x. absurd x)
any-names t (d ∷ ds) = ground (
  arith,
  any-names t ds,
  text_beq_iff (normal d) [],
  text_beq_iff (normal d ++ text ".") (t ++ text "."),
  snoc_injective (normal d) t,
)

Under-sound : (d s : Text) → Some (λ t. t ≡ d) (s ∷ parents s) → Under d s
Under-sound d s (inl e) = inl e
Under-sound d s (inr x) = inr (parents_sound d s x)

Under-complete : (d s : Text) → Under d s → Some (λ t. t ≡ d) (s ∷ parents s)
Under-complete d s (inl e) = inl e
Under-complete d s (inr (pre, e)) = inr (rw e (parents_complete d pre))

Hits-out :
    (d : Text) (ts : List Text)
    → Some (λ t. Hits d t) ts
    → (normal d ≢ []) × Some (λ t. t ≡ normal d) ts
Hits-out d [] x = absurd x
Hits-out d (t ∷ ts) (inl h) = (h.0, inl h.1)
Hits-out d (t ∷ ts) (inr x) = let (n, y) = Hits-out d ts x in (n, inr y)

-- The list entry `d` blocks `name`: it is not blank, and the name is the domain or under it.
abbrev pub Blocks : Text → Text → Type 0
Blocks name d = (normal d ≢ []) × Under (normal d) (trim_last dot name)

no_names : (ls : List Text) → some_tail_blocked [] ls ≡ false
unfolding some_tail_blocked any
no_names [] = refl
no_names (l ∷ ls) = no_names ls

guard_lem :
    (bs ls : List Text)
    → (if is_empty bs then false else some_tail_blocked bs ls) ≡ some_tail_blocked bs ls
unfolding is_empty
guard_lem [] ls = sym (no_names ls)
guard_lem (b ∷ bs) ls = refl

-- A name is blocked by a list exactly when some entry that is not blank, without spaces around it,
-- a last dot and capitals, is the name without its last dot, or what stands behind one of the
-- name's dots.
pub is_blocked_iff :
    (r : Resolver) (domains : List Text) (name : Text)
    → (is_blocked (set_blocklist r domains) name ≡ true) ↔ Some (λ d. Blocks name d) domains
unfolding is_blocked set_blocklist
is_blocked_iff r domains name =
    let s = trim_last dot name in
    let bs = blocked_names domains in
    (
      λ h.
          let t = (some_tail_blocked_lem bs (split dot s)).0 (cc (h, guard_lem bs (split dot s))) in
          let u = Some-map (λ t x. (any-names t domains).0 x) (tails (split dot s)) t in
          let v = subst (Some (λ t. Some (λ d. Hits d t) domains)) (tails-split s) u in
          Some-map
            (λ d x. let (n, y) = Hits-out d (s ∷ parents s) x in (n, Under-sound (normal d) s y))
            domains (Some-swap (λ t d. Hits d t) (s ∷ parents s) domains v),
      λ x.
          let y =
            Some-map
              (λ d b. Some-map (λ t e. (b.0, e)) (s ∷ parents s) (Under-complete (normal d) s b.1))
              domains x in
          let v = Some-swap (λ d t. Hits d t) domains (s ∷ parents s) y in
          let u = subst (Some (λ t. Some (λ d. Hits d t) domains)) (sym (tails-split s)) v in
          let t = Some-map (λ t x. (any-names t domains).1 x) (tails (split dot s)) u in
          guard_lem bs (split dot s) ∙ (some_tail_blocked_lem bs (split dot s)).1 t,
    )
