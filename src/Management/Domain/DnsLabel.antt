-- ===== src/Management/Domain/DnsLabel.antt =====
-- The labels that `ToDNSLabel` makes.
use blinex.Prelude.{
  ℕ, ◌≡◌, refl, ◌≢◌, inl, inr, Bool, true, false, [], ◌∷◌, ◌++◌, map, arith, ◌==◌, nat_eq,
  if◌then◌else◌, Bool-cases, All, length, leb, ◌&&◌, ◌||◌,
}
use blinex.Prelude.Text.{
  Text, text, text_eq, text_beq_iff, lower_rune, runes, trim, trim_left, trim_right,
}
use blinex.Management.Domain.{is_label_byte, is_dash, sanitized, to_dns_label}

abbrev pub first_is_dash : Text → Bool
first_is_dash [] = false
first_is_dash (c ∷ s) = is_dash c

abbrev pub last_is_dash : Text → Bool
last_is_dash [] = false
last_is_dash (c ∷ []) = is_dash c
last_is_dash (c ∷ d ∷ s) = last_is_dash (d ∷ s)

-- A label: lower-case letters, digits and dashes, with no dash at either end.
pub record IsLabel (s : Text) : Type 0 where
  pub not_empty : s ≢ []
  pub bytes : All (λ c. is_label_byte c ≡ true) s
  pub first : first_is_dash s ≡ false
  pub last : last_is_dash s ≡ false

abbrev cleaned : ℕ → ℕ
cleaned c = if is_label_byte c then c else b'-'

cleaned_bytes : (s : Text) → All (λ c. is_label_byte c ≡ true) (map cleaned s)
cleaned_bytes [] = tt
cleaned_bytes (c ∷ s) = (ground arith, cleaned_bytes s)

trim_left-All : (P : ℕ → Type 0) (p : ℕ → Bool) (s : Text) → All P s → All P (trim_left p s)
trim_left-All P p [] a = unfold trim_left in tt
trim_left-All P p (c ∷ s) a = step (trim_left-All P p s a.1)
  where
    step : All P (trim_left p s) → All P (trim_left p (c ∷ s))
    step rest = elim (Bool-cases (p c)) [
      | inl y ↦ unfold trim_left in rw y rest
      | inr n ↦ unfold trim_left in rw n a
    ]

trim_left_first : (s : Text) → first_is_dash (trim_left is_dash s) ≡ false
unfolding trim_left
trim_left_first [] = refl
trim_left_first (c ∷ s) = elim (Bool-cases (is_dash c)) [
  | inl y ↦ rw y (trim_left_first s)
  | inr n ↦ rw n n
]

-- What trimming on the right leaves of a byte and what is left behind it.
abbrev trimmed : ℕ → Text → Text
trimmed c [] = if is_dash c then [] else c ∷ []
trimmed c (d ∷ r) = c ∷ d ∷ r

trim_right-cons : (c : ℕ) (s : Text) → trim_right is_dash (c ∷ s) ≡ trimmed c (trim_right is_dash s)
unfolding trim_right
trim_right-cons c s = ground arith

trimmed-All : (P : ℕ → Type 0) (c : ℕ) (s : Text) → P c → All P s → All P (trimmed c s)
trimmed-All P c [] p a = elim (Bool-cases (is_dash c)) [ inl y ↦ rw y tt | inr n ↦ rw n (p, tt) ]
trimmed-All P c (d ∷ r) p a = (p, a)

trim_right-All : (P : ℕ → Type 0) (s : Text) → All P s → All P (trim_right is_dash s)
trim_right-All P [] a = unfold trim_right in tt
trim_right-All P (c ∷ s) a =
    rw (trim_right-cons c s) (trimmed-All P c (trim_right is_dash s) a.0 (trim_right-All P s a.1))

trimmed_last : (c : ℕ) (s : Text) → last_is_dash s ≡ false → last_is_dash (trimmed c s) ≡ false
trimmed_last c [] h = elim (Bool-cases (is_dash c)) [ inl y ↦ rw y refl | inr n ↦ rw n n ]
trimmed_last c (d ∷ r) h = h

trim_right_last : (s : Text) → last_is_dash (trim_right is_dash s) ≡ false
trim_right_last [] = unfold trim_right in refl
trim_right_last (c ∷ s) =
    rw (trim_right-cons c s) (trimmed_last c (trim_right is_dash s) (trim_right_last s))

trimmed_first : (c : ℕ) (s : Text) → is_dash c ≡ false → first_is_dash (trimmed c s) ≡ false
trimmed_first c [] h = rw h h
trimmed_first c (d ∷ r) h = h

trim_right_first :
    (s : Text) → first_is_dash s ≡ false → first_is_dash (trim_right is_dash s) ≡ false
trim_right_first [] h = unfold trim_right in refl
trim_right_first (c ∷ s) h = rw (trim_right-cons c s) (trimmed_first c (trim_right is_dash s) h)

sanitized-IsLabel : (s : Text) → sanitized s ≢ [] → IsLabel (sanitized s)
unfolding sanitized trim
sanitized-IsLabel s ne =
    let lowered = map lower_rune (runes s) in
    let t = map (λ c. if is_label_byte c then c else b'-') lowered in
    record {
      not_empty = ne;
      bytes = trim_right-All _ _ (trim_left-All _ is_dash _ (cleaned_bytes lowered));
      first = trim_right_first (trim_left is_dash t) (trim_left_first t);
      last = trim_right_last (trim_left is_dash t);
    }

-- A digit of a UUID as it is printed.
abbrev pub is_hex_digit : ℕ → Bool
is_hex_digit c = (leb b'0' c && leb c b'9') || (leb b'a' c && leb c b'f')

hex_bytes : (s : Text) → All (λ c. is_hex_digit c ≡ true) s → All (λ c. is_label_byte c ≡ true) s
hex_bytes [] a = tt
hex_bytes (c ∷ s) a = (ground (arith, a.0), hex_bytes s a.1)

hex_last :
    (c : ℕ) (s : Text) → All (λ c. is_hex_digit c ≡ true) (c ∷ s) → last_is_dash (c ∷ s) ≡ false
hex_last c [] a = ground (arith, a.0)
hex_last c (d ∷ s) a = hex_last d s a.1

fallback-IsLabel :
    (random : Text)
    → length random ≡ 8
    → All (λ c. is_hex_digit c ≡ true) random
    → IsLabel (text "peer-" ++ random)
fallback-IsLabel [] n a = absurd (omega (arith, n))
fallback-IsLabel (c ∷ s) n a = record {
  not_empty = λ e. cc e;
  bytes = (refl, (refl, (refl, (refl, (refl, hex_bytes (c ∷ s) a)))));
  first = refl;
  last = hex_last c s a;
}

-- Every hostname becomes a label of lower-case letters, digits and dashes that neither begins nor
-- ends with a dash and is not empty, where the random part that stands in for a hostname with no
-- such byte is the first eight characters of a UUID, which are hexadecimal digits.
pub to_dns_label-IsLabel :
    (random hostname : Text)
    → length random ≡ 8
    → All (λ c. is_hex_digit c ≡ true) random
    → IsLabel (to_dns_label random hostname)
unfolding to_dns_label
to_dns_label-IsLabel random hostname n a = elim (Bool-cases (sanitized hostname == [])) [
  | inl y ↦ rw y (fallback-IsLabel random n a)
  | inr z ↦
      rw z (sanitized-IsLabel hostname (λ e. ground (arith, text_beq_iff (sanitized hostname) [])))
]
