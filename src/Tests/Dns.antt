-- ===== src/Tests/Dns.antt =====
-- A resolver of the suffix "blinex" with one record and a list of one domain.
use blinex.Prelude.{
  ℕ, ◌≡◌, refl, ◌↔◌, true, Option, none, some, List, [], ◌∷◌, ◌==◌, nat_eq, if◌then◌else◌, Some,
}
use blinex.Prelude.Text.{Text, text, text_eq, to_lower}
use blinex.Netip.{parse_addr}
use blinex.Dns.{Question, new, set_blocklist, is_blocked, fqdn, upsert, handle, type_a}
use blinex.Dns.Blocking.{Blocks, is_blocked_iff}
use blinex.Dns.Records.{reply_with, handle-upsert}

abbrev feed : List Text
feed = text " Evil.example. " ∷ text "." ∷ []

is_blocked_iff_example :
    (is_blocked (set_blocklist (new (text "blinex")) feed) (text "www.evil.example.") ≡ true)
    ↔ Some (λ d. Blocks (text "www.evil.example.") d) feed
is_blocked_iff_example = is_blocked_iff (new (text "blinex")) feed (text "www.evil.example.")

abbrev laptop : Question
laptop = record { name = text "Laptop.Blinex."; qtype = type_a }

-- A wire format of one question, and an upstream server that does not answer.
abbrev unpack : List ℕ → Option (List Question)
unpack [] = none
unpack (c ∷ raw) = some (laptop ∷ [])

abbrev no_upstream : List ℕ → Option (List ℕ)
no_upstream raw = none

handle-upsert_example :
    handle unpack no_upstream
      (upsert (new (text "blinex")) (text "laptop") (text "100.64.0.2"))
      (1 ∷ [])
    ≡ (if fqdn (new (text "blinex")) (text "laptop") == to_lower (text "Laptop.Blinex.")
        then reply_with
            (parse_addr (text "100.64.0.2"))
            (new (text "blinex"))
            no_upstream
            laptop
            (1 ∷ [])
        else handle unpack no_upstream (new (text "blinex")) (1 ∷ []))
handle-upsert_example =
    handle-upsert unpack no_upstream (new (text "blinex")) (text "laptop") (text "100.64.0.2")
      (1 ∷ []) laptop [] refl
