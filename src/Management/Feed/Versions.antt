-- ===== src/Management/Feed/Versions.antt =====
-- management/internal/blocklist/blocklist.go: what two lists of the same version have in common.
use blinex.Prelude.{
  ℕ, ◌≡◌, ◌↔◌, inl, inr, refl, true, not, Option, none, some, List, [], ◌∷◌, ◌++◌, ◌==◌, nat_eq,
  all, any, All, ap, ◌∙◌, sym, arith, Bool-cases, subst,
}
use blinex.Prelude.Text.{Text, text_eq, trim, trim_last, is_space, split, to_lower}
use blinex.Management.Store.Order.{Mem}
use blinex.Management.Feed.{
  add_word, chunks, fields, pick, clean, domain_of, add_domain, collect, text_leb, insert_text,
  sort_texts, lines_text, hash_domains,
}

-- No byte of the text is a space.
abbrev pub Solid : Text → Type 0
Solid d = all (λ c. not (is_space c)) d ≡ true

add_word-Solid : (w : Text) (ws : List Text) → Solid w → All Solid ws → All Solid (add_word w ws)
add_word-Solid [] ws h a = a
add_word-Solid (c ∷ w) ws h a = (h, a)

chunks-Solid : (s : Text) → Solid (chunks s).0 × All Solid (chunks s).1
unfolding chunks all
chunks-Solid [] = (refl, tt)
chunks-Solid (c ∷ s) =
    let (h, a) = chunks-Solid s in
    elim (Bool-cases (is_space c)) [
      | inl y ↦ rw y (refl, add_word-Solid (chunks s).0 (chunks s).1 h a)
      | inr n ↦ rw n (rw (h, n) refl, a)
    ]

fields-Solid : (s : Text) → All Solid (fields s)
unfolding fields
fields-Solid s = let (h, a) = chunks-Solid s in add_word-Solid (chunks s).0 (chunks s).1 h a

pick-Solid : (fs : List Text) → All Solid fs → Solid (pick fs)
unfolding all
pick-Solid [] a = refl
pick-Solid (f ∷ []) a = a.0
pick-Solid (f ∷ g ∷ rest) a = ground (arith, a.0, a.1.0)

trim_last-Solid : (c : ℕ) (s : Text) → Solid s → Solid (trim_last c s)
unfolding trim_last all
trim_last-Solid c [] h = refl
trim_last-Solid c (a ∷ []) h = ground (arith, h)
trim_last-Solid c (a ∷ b ∷ s) h = ground (arith, trim_last-Solid c (b ∷ s))

to_lower-Solid : (s : Text) → Solid s → Solid (to_lower s)
unfolding to_lower all is_space
to_lower-Solid [] h = refl
to_lower-Solid (a ∷ s) h = ground (arith, to_lower-Solid s)

domain_of-Solid : (line d : Text) → domain_of line ≡ some d → Solid d
unfolding domain_of
domain_of-Solid line d h =
    let l = trim is_space line in
    let p = pick (fields l) in
    let solid : Solid (clean p) =
      to_lower-Solid (trim_last b'.' p)
        (trim_last-Solid b'.' p (pick-Solid (fields l) (fields-Solid l))) in
    let e : some (clean p) ≡ some d = ground (arith, h) in
    let f : clean p ≡ d = cc e in subst Solid f solid

add_domain-Solid :
    (o : Option Text) (seen : List Text)
    → ((d : Text) → o ≡ some d → Solid d)
    → All Solid seen
    → All Solid (add_domain o seen)
add_domain-Solid none seen h a = a
add_domain-Solid (some d) seen h a = elim (Bool-cases (any (λ e. e == d) seen)) [
  | inl y ↦ rw y a
  | inr n ↦ rw n (h d refl, a)
]

pub collect-Solid : (lines seen : List Text) → All Solid seen → All Solid (collect lines seen)
unfolding collect
collect-Solid [] seen a = a
collect-Solid (line ∷ lines) seen a =
    collect-Solid lines (add_domain (domain_of line) seen)
      (add_domain-Solid (domain_of line) seen (domain_of-Solid line) a)

insert_text-Solid : (a : Text) (l : List Text) → Solid a → All Solid l → All Solid (insert_text a l)
unfolding insert_text
insert_text-Solid a [] h s = (h, tt)
insert_text-Solid a (b ∷ l) h s = elim (Bool-cases (text_leb a b)) [
  | inl y ↦ rw y (h, s)
  | inr n ↦ rw n (s.0, insert_text-Solid a l h s.1)
]

sort_texts-Solid : (l : List Text) → All Solid l → All Solid (sort_texts l)
unfolding sort_texts
sort_texts-Solid [] s = tt
sort_texts-Solid (a ∷ l) s = insert_text-Solid a (sort_texts l) s.0 (sort_texts-Solid l s.1)

Mem-insert_text : (d a : Text) (l : List Text) → Mem d (insert_text a l) ↔ Mem d (a ∷ l)
unfolding insert_text
Mem-insert_text d a [] = (λ x. x, λ x. x)
Mem-insert_text d a (b ∷ l) = elim (Bool-cases (text_leb a b)) [
  | inl y ↦ rw y (λ x. x, λ x. x)
  | inr n ↦ rw n (ground (arith, Mem-insert_text d a l))
]

Mem-sort_texts : (d : Text) (l : List Text) → Mem d (sort_texts l) ↔ Mem d l
unfolding sort_texts
Mem-sort_texts d [] = (λ x. x, λ x. x)
Mem-sort_texts d (a ∷ l) = ground (arith, Mem-insert_text d a (sort_texts l), Mem-sort_texts d l)

split-line : (d s : Text) → Solid d → split b'\n' (d ++ b'\n' ∷ s) ≡ d ∷ split b'\n' s
unfolding split all is_space
split-line [] s h = refl
split-line (c ∷ d) s h =
    let rest : split b'\n' (d ++ b'\n' ∷ s) ≡ d ∷ split b'\n' s = split-line d s (ground arith) in
    ground (arith, rest)

split-lines_text : (ds : List Text) → All Solid ds → split b'\n' (lines_text ds) ≡ ds ++ ([] ∷ [])
unfolding lines_text
split-lines_text [] a = unfold split in refl
split-lines_text (d ∷ ds) a =
    split-line d (lines_text ds) a.0 ∙ ap (λ l. d ∷ l) (split-lines_text ds a.1)

abbrev but_last : List Text → List Text
but_last [] = []
but_last (x ∷ []) = []
but_last (x ∷ y ∷ l) = x ∷ but_last (y ∷ l)

but_last-snoc : (l : List Text) → but_last (l ++ ([] ∷ [])) ≡ l
but_last-snoc [] = refl
but_last-snoc (x ∷ []) = refl
but_last-snoc (x ∷ y ∷ l) = ap (λ m. x ∷ m) (but_last-snoc (y ∷ l))

lines_text_injective :
    (xs ys : List Text) → All Solid xs → All Solid ys → lines_text xs ≡ lines_text ys → xs ≡ ys
lines_text_injective xs ys a b e =
    sym (but_last-snoc xs)
    ∙ ap but_last (sym (split-lines_text xs a) ∙ ap (split b'\n') e ∙ split-lines_text ys b)
    ∙ but_last-snoc ys

-- Lists of the same version have the same domains, where equal hashes mean equal texts.
pub same_version :
    (sha256_hex : Text → Text)
    → ((s t : Text) → sha256_hex s ≡ sha256_hex t → s ≡ t)
    → (xs ys : List Text) → All Solid xs
    → All Solid ys
    → hash_domains sha256_hex xs ≡ hash_domains sha256_hex ys
    → (d : Text) → Mem d xs ↔ Mem d ys
unfolding hash_domains
same_version sha256_hex injective xs ys a b e d =
    let same : sort_texts xs ≡ sort_texts ys =
      lines_text_injective (sort_texts xs) (sort_texts ys) (sort_texts-Solid xs a)
        (sort_texts-Solid ys b)
        (injective (lines_text (sort_texts xs)) (lines_text (sort_texts ys)) e) in
    let mid : Mem d (sort_texts xs) ↔ Mem d (sort_texts ys) = rw same (λ x. x, λ x. x) in
    ground (arith, mid, Mem-sort_texts d xs, Mem-sort_texts d ys)
