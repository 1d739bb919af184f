-- ===== src/Prelude/Text.antt =====
-- Go strings as the list of their bytes, with the functions of the standard package `strings`
-- that the program calls.
use Prim.Native.Char.{code}
use Prim.Native.Nat.{ℕ, zero, suc, ◌+◌, ◌-◌, ◌*◌}
use Prim.Native.String.{String}
use mathlib.Core.Path.{◌≡◌, refl}
use mathlib.Core.Logic.{◌↔◌, inl, inr}
use mathlib.Core.Bool.{Bool, true, false, ◌&&◌, ◌||◌}
use mathlib.Core.List.{List, [], ◌∷◌, ◌++◌, map}
use native.Mathlib.Omega.{arith}
use blinex.Prelude.Tests.{
  nat_beq, nat_beq_iff, nat_eq, leb, ltb, Eq, ◌==◌, Bool-cases, if◌then◌else◌,
}
use blinex.Prelude.Lists.{get_or}

abbrev pub Text : Type 0
Text = List ℕ

-- A literal's bytes (the program's literals are ASCII).
abbrev pub text : String → Text
text String.[] = []
text (String.◌∷◌ c s) = code c ∷ text s

unfoldable pub text_beq : Text → Text → Bool
text_beq [] [] = true
text_beq (a ∷ s) (b ∷ t) = nat_beq a b && text_beq s t
text_beq _ _ = false

text_beq_refl : (s : Text) → text_beq s s ≡ true
unfolding text_beq
text_beq_refl [] = refl
text_beq_refl (a ∷ s) = ground (arith, text_beq_refl s)

text_beq_sound : (s t : Text) → text_beq s t ≡ true → s ≡ t
unfolding text_beq
text_beq_sound [] [] h = refl
text_beq_sound (a ∷ s) (b ∷ t) h = ground (arith, text_beq_sound s t)
text_beq_sound [] (b ∷ t) h = cc
text_beq_sound (a ∷ s) [] h = cc

pub text_beq_iff : (s t : Text) → (text_beq s t ≡ true) ↔ (s ≡ t)
text_beq_iff s t = (text_beq_sound s t, λ e. rw (← e) (text_beq_refl s))

instance abbrev pub text_eq : Eq Text
text_eq = record { beq = text_beq; beq_iff = text_beq_iff }

-- `strings.ToLower` on ASCII bytes.
abbrev pub lower_byte : ℕ → ℕ
lower_byte c = if leb b'A' c && leb c b'Z' then c + 32 else c

unfoldable pub to_lower : Text → Text
to_lower = map lower_byte

abbrev is_between : ℕ → ℕ → ℕ → Bool
is_between lo hi c = leb lo c && leb c hi

-- The rune that a byte and what follows it spell in UTF-8, and how many of those that follow belong
-- to it; a byte that begins no rune is U+FFFD by itself.
unfoldable decode_rune : ℕ → Text → ℕ × ℕ
decode_rune b s =
    let c = get_or s 0 0 in
    let d = get_or s 1 0 in
    let e = get_or s 2 0 in
    if ltb b 128
    then (b, 0)
    else if is_between 194 223 b && is_between 128 191 c
    then ((b - 192) * 64 + (c - 128), 1)
    else if is_between 224 239 b
        && is_between (if b == 224 then 160 else 128) (if b == 237 then 159 else 191) c
        && is_between 128 191 d
    then ((b - 224) * 4096 + (c - 128) * 64 + (d - 128), 2)
    else if is_between 240 244 b
        && is_between (if b == 240 then 144 else 128) (if b == 244 then 143 else 191) c
        && is_between 128 191 d
        && is_between 128 191 e
    then ((b - 240) * 262144 + (c - 128) * 4096 + (d - 128) * 64 + (e - 128), 3)
    else (65533, 0)

unfoldable runes_after : ℕ → Text → List ℕ
unfolding decode_rune
runes_after k [] = []
runes_after zero (b ∷ s) = let (r, more) = decode_rune b s in r ∷ runes_after more s
runes_after (suc k) (b ∷ s) = runes_after k s

-- The runes of a string, as `range` and `strings.Map` meet them.
unfoldable pub runes : Text → List ℕ
unfolding runes_after
runes s = runes_after 0 s

-- `unicode.ToLower`, as far as what comes of it is ASCII: two runes outside ASCII become ASCII
-- letters, and of the others outside it none does; they are left as they are here.
abbrev pub lower_rune : ℕ → ℕ
lower_rune c = if c == 304 then b'i' else if c == 8490 then b'k' else lower_byte c

unfoldable pub has_prefix : Text → Text → Bool
has_prefix s [] = true
has_prefix [] (p ∷ ps) = false
has_prefix (c ∷ s) (p ∷ ps) = nat_beq c p && has_prefix s ps

-- What is left of `s` behind as many bytes as `p` has.
unfoldable pub drop_prefix : Text → Text → Text
drop_prefix s [] = s
drop_prefix [] (p ∷ ps) = []
drop_prefix (c ∷ s) (p ∷ ps) = drop_prefix s ps

unfoldable pub trim_prefix : Text → Text → Text
unfolding has_prefix drop_prefix
trim_prefix s p = if has_prefix s p then drop_prefix s p else s

-- `strings.TrimSuffix s "c"` for a suffix of one byte.
unfoldable pub trim_last : ℕ → Text → Text
trim_last c [] = []
trim_last c (a ∷ []) = if nat_beq a c then [] else a ∷ []
trim_last c (a ∷ b ∷ s) = a ∷ trim_last c (b ∷ s)

-- `strings.TrimLeft` and `strings.TrimRight` by a test on bytes.
unfoldable pub trim_left : (ℕ → Bool) → Text → Text
trim_left p [] = []
trim_left p (c ∷ s) = if p c then trim_left p s else c ∷ s

unfoldable pub trim_right : (ℕ → Bool) → Text → Text
trim_right p [] = []
trim_right p (c ∷ s) =
    let rest = trim_right p s in elim rest [ [] ↦ if p c then [] else c ∷ [] | (d ∷ r) ↦ c ∷ d ∷ r ]

unfoldable pub trim : (ℕ → Bool) → Text → Text
unfolding trim_left trim_right
trim p s = trim_right p (trim_left p s)

-- `unicode.IsSpace` on ASCII bytes.
unfoldable pub is_space : ℕ → Bool
is_space c = (leb 9 c && leb c 13) || nat_beq c 32

-- The head of the first part, put before the others.
abbrev pub cons_head : ℕ → List Text → List Text
cons_head c [] = (c ∷ []) ∷ []
cons_head c (p ∷ ps) = (c ∷ p) ∷ ps

-- `strings.Split s sep` for a separator of one byte: never empty.
unfoldable pub split : ℕ → Text → List Text
split sep [] = [] ∷ []
split sep (c ∷ s) = let rest = split sep s in if nat_beq c sep then [] ∷ rest else cons_head c rest

-- `strings.Join parts sep` for a separator of one byte.
unfoldable pub join : ℕ → List Text → Text
join sep [] = []
join sep (p ∷ []) = p
join sep (p ∷ q ∷ ps) = p ++ sep ∷ join sep (q ∷ ps)

pub split_ne_nil : (sep : ℕ) (s : Text) → (p : Text) × (ps : List Text) × (split sep s ≡ p ∷ ps)
unfolding split
split_ne_nil sep [] = ([], [], refl)
split_ne_nil sep (c ∷ s) =
    let (p, ps, e) = split_ne_nil sep s in
    elim (Bool-cases (nat_beq c sep)) [
      | inl y ↦ ([], split sep s, rw y)
      | inr n ↦ (c ∷ p, ps, rw (n, e))
    ]

join-cons_head :
    (sep c : ℕ) (p : Text) (ps : List Text) → join sep ((c ∷ p) ∷ ps) ≡ c ∷ join sep (p ∷ ps)
unfolding join
join-cons_head sep c p [] = refl
join-cons_head sep c p (q ∷ ps) = refl

-- One round of joining a split text, from the rest of the text joined.
join-split_step :
    (sep c : ℕ) (s : Text) → join sep (split sep s) ≡ s → join sep (split sep (c ∷ s)) ≡ c ∷ s
join-split_step sep c s back =
    let (p, ps, e) = split_ne_nil sep s in
    elim (Bool-cases (nat_beq c sep)) [
      | inl y ↦ unfold split in rw (y, e) (unfold join in ground (arith, nat_beq_iff c sep))
      | inr n ↦ unfold split in rw (n, e) (rw join-cons_head (ground arith))
    ]

-- Splitting and joining by the same byte gives the text back.
pub join-split : (sep : ℕ) (s : Text) → join sep (split sep s) ≡ s
join-split sep [] = unfold join split in refl
join-split sep (c ∷ s) = join-split_step sep c s (join-split sep s)
