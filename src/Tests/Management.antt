-- ===== src/Tests/Management.antt =====
-- The control plane on small concrete states.
use blinex.Prelude.{
  ℕ, ◌+◌, ◌-◌, ◌*◌, ◌≤◌, ◌≡◌, refl, ◌≢◌, inl, none, some, List, [], ◌∷◌, arith, All, true,
}
use blinex.Prelude.Text.{
  Text, text, text_eq, text_beq, text_beq_iff, runes, trim, trim_left, trim_right,
}
use blinex.Prelude.Dict.{get}
use blinex.Netip.{Prefix, parse_addr}
use blinex.Management.Ipam.{Ipam, allocate_host, preload_peers}
use blinex.Management.Ipam.Leases.{Call, IsValid, run, run-IsValid, never_reused}
use blinex.Management.Ipam.Restart.{Saved, Fits, restart_keeps_address}
use blinex.Management.RateLimit.{new_rate_limiter, token, rl_capacity, second}
use blinex.Management.RateLimit.Bound.{passes, Clocked, passes_bound}
use blinex.Management.Domain.{to_dns_label}
use blinex.Management.Domain.DnsLabel.{IsLabel, is_hex_digit, to_dns_label-IsLabel}

-- 100.64.0.0/10, its second and its third host.
abbrev mesh : Prefix
mesh = record { addr = 1681915904; bits = 10 }

abbrev empty : Ipam
empty = record { network = mesh; next = 1681915905; leased = [] }

abbrev no_lease : (k : Text) → get empty.leased k ≡ none
no_lease k = unfold get in refl

empty-IsValid : IsValid empty
unfolding get
empty-IsValid = record {
  in_network = omega arith;
  below = omega arith;
  width = omega arith;
  leased_low = λ k h g. cc g;
  leased_below = λ k h g. cc g;
  unshared = λ j k h g g'. cc g;
}

abbrev calls : List Call
calls = Call.allocates (text "a") ∷ Call.releases (text "a") ∷ Call.allocates (text "b") ∷ []

run-IsValid_example : IsValid (run empty calls)
run-IsValid_example = run-IsValid empty calls empty-IsValid

first_host : (allocate_host empty (text "a")).0 ≡ some 1681915905
unfolding allocate_host get
first_host = refl

abbrev after_a : Ipam
after_a = record empty { next = 1681915906; leased = (text "a", 1681915905) ∷ [] }

after_a-IsValid : IsValid after_a
unfolding get
after_a-IsValid = record {
  in_network = omega arith;
  below = omega arith;
  width = omega arith;
  leased_low = λ k h g. ground arith;
  leased_below = λ k h g. ground arith;
  unshared = λ j k h g g'. ground (arith, text_beq_iff (text "a") j, text_beq_iff (text "a") k);
}

a_leased : get after_a.leased (text "a") ≡ some 1681915905
unfolding get text_beq
a_leased = refl

b_is_not_a : text "b" ≢ text "a"
unfolding text_beq
b_is_not_a e = cc ((text_beq_iff (text "b") (text "a")).1 e)

never_reused_example : (allocate_host (run after_a calls) (text "b")).0 ≢ some 1681915905
never_reused_example =
    never_reused after_a calls (text "a") (text "b") 1681915905 after_a-IsValid a_leased b_is_not_a

-- A persisted peer at 100.64.0.7.
abbrev saved : Saved
saved = (text "a", text "100.64.0.7")

saved_ip : parse_addr (text "100.64.0.7") ≡ some 1681915911
unfolding parse_addr
saved_ip = refl

saved-Fits : Fits mesh saved
saved-Fits h e =
    let k : some h ≡ some 1681915911 = cc (e, saved_ip) in
    let i : h ≡ 1681915911 = cc k in (omega arith, omega arith)

restart_keeps_address_example :
    IsValid (preload_peers empty (saved ∷ []))
    × (allocate_host (preload_peers empty (saved ∷ [])) (text "a")
        ≡ (some 1681915911, preload_peers empty (saved ∷ [])))
restart_keeps_address_example =
    restart_keeps_address empty (saved ∷ []) saved 1681915911 empty-IsValid no_lease
      (saved-Fits, tt) (tt, tt) (inl refl) saved_ip

-- A persisted peer at 192.168.0.1, from an earlier network.
stray_ip : parse_addr (text "192.168.0.1") ≡ some 3232235521
unfolding parse_addr
stray_ip = refl

-- Three attempts of one caller and one of another, within two seconds.
abbrev attempts : List (ℕ × Text)
attempts =
    (5 * second, text "a")
    ∷ (5 * second, text "b")
    ∷ (6 * second, text "a")
    ∷ (7 * second, text "a")
    ∷ []

attempts-Clocked : Clocked (5 * second) attempts (8 * second)
attempts-Clocked = (omega arith, (omega arith, (omega arith, (omega arith, omega arith))))

passes_bound_example :
    token * passes (new_rate_limiter (5 * second)) (text "a") attempts
    ≤ rl_capacity + (8 * second - 5 * second)
passes_bound_example = passes_bound (text "a") (5 * second) (8 * second) attempts attempts-Clocked

abbrev random : Text
random = text "0123abcd"

random-digits : All (λ c. is_hex_digit c ≡ true) random
random-digits = (refl, (refl, (refl, (refl, (refl, (refl, (refl, (refl, tt))))))))

to_dns_label-IsLabel_example : IsLabel (to_dns_label random (text "Alice's Laptop!"))
to_dns_label-IsLabel_example =
    to_dns_label-IsLabel random (text "Alice's Laptop!") refl random-digits

-- The two bytes of a letter with an accent are one rune and become one dash, and the Kelvin sign is
-- a letter.
accented : to_dns_label random (b'a' ∷ 195 ∷ 169 ∷ b'Z' ∷ 226 ∷ 132 ∷ 170 ∷ []) ≡ text "a-zk"
unfolding to_dns_label runes trim trim_left trim_right text_beq
accented = refl
