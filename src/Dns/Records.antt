-- ===== src/Dns/Records.antt =====
-- client/internal/dns/resolver.go, `handle`: what is sent back, and how it follows the records.
use blinex.Prelude.{
  ℕ, Option, none, some, List, [], ◌∷◌, ◌==◌, nat_eq, if◌then◌else◌, ◌≡◌, ◌≢◌, ◌↔◌, refl, arith,
  inl, inr, Bool-cases, Option-cases,
}
use blinex.Prelude.Text.{Text, text_eq, to_lower}
use blinex.Prelude.Dict.{get, get-put}
use blinex.Netip.{Addr, parse_addr}
use blinex.Dns.{
  Resolver, Question, Reply, silent, name_error, type_a, fqdn, upsert, is_blocked, forward,
  without_record, reply_to, reply_first, handle, found_address,
}

-- The code's answer to one question, by cases on the record, the type and the list.
abbrev pub reply_with :
    Option Addr → Resolver → (List ℕ → Option (List ℕ)) → Question → List ℕ → Reply
reply_with none r upstream q raw =
    if is_blocked r (to_lower q.name) then name_error else forward upstream raw
reply_with (some a) r upstream q raw =
    if q.qtype == type_a
    then Reply.address q a
    else if is_blocked r (to_lower q.name)
    then name_error
    else forward upstream raw

module _ (unpack : List ℕ → Option (List Question)) (upstream : List ℕ → Option (List ℕ)) where
  forward_ne : (raw : List ℕ) → forward upstream raw ≢ silent
  unfolding forward
  forward_ne raw e = elim (Option-cases (upstream raw)) [
    | inl n ↦ ground arith
    | inr (x, s) ↦ ground arith
  ]

  reply_to_ne :
      (r : Resolver) (q : Question) (raw : List ℕ) (o : Option Addr)
      → reply_to r upstream q raw o ≢ silent
  unfolding reply_to without_record
  reply_to_ne r q raw none e = ground (arith, forward_ne raw)
  reply_to_ne r q raw (some a) e = ground (arith, forward_ne raw)

  reply_first_ne :
      (r : Resolver) (raw : List ℕ) (o : Option (List Question))
      → (reply_first r upstream raw o ≢ silent)
        ↔ ((q : Question) × ((qs : List Question) × (o ≡ some (q ∷ qs))))
  unfolding reply_first
  reply_first_ne r raw none = (λ n. absurd (n refl), λ x. cc (x.1.1))
  reply_first_ne r raw (some []) = (λ n. absurd (n refl), λ x. cc (x.1.1))
  reply_first_ne r raw (some (q ∷ qs)) = (
    λ n. (q, (qs, refl)),
    λ x. reply_to_ne r q raw (found_address (get r.records (to_lower q.name))),
  )

  -- A packet is answered exactly when it reads as a message with a question: also when the upstream
  -- server fails.
  pub handle_answers_iff :
      (r : Resolver) (raw : List ℕ)
      → (handle unpack upstream r raw ≢ silent)
        ↔ ((q : Question) × ((qs : List Question) × (unpack raw ≡ some (q ∷ qs))))
  unfolding handle
  handle_answers_iff r raw = reply_first_ne r raw (unpack raw)

  same_list :
      (r r' : Resolver) (q : Question) (raw : List ℕ) (o : Option Addr)
      → r'.blocked ≡ r.blocked
      → reply_to r' upstream q raw o ≡ reply_with o r upstream q raw
  unfolding reply_to without_record is_blocked
  same_list r r' q raw none e = rw e refl
  same_list r r' q raw (some a) e = rw e refl

  -- After a record is set with a text that reads as an IPv4 address, a question of type A for its name,
  -- in whatever case, is answered with that address, be the name blocked or not. A question of another
  -- type for that name, and any question for it if the text reads as no IPv4 address, is answered as
  -- if there were no record: by a name error if the name is blocked, by the upstream server if not.
  -- A question for any other name is answered as before the record was set.
  pub handle-upsert :
      (r : Resolver) (label ip : Text) (raw : List ℕ) (q : Question) (qs : List Question)
      → unpack raw ≡ some (q ∷ qs)
      → handle unpack upstream (upsert r label ip) raw ≡ (
          if fqdn r label == to_lower q.name
          then reply_with (parse_addr ip) r upstream q raw
          else handle unpack upstream r raw)
  unfolding handle reply_first upsert
  handle-upsert r label ip raw q qs e =
      let name = to_lower q.name in
      let r' = upsert r label ip in
      elim (Bool-cases (fqdn r label == name)) [
        | inl y ↦
            rw (e, get-put r.records (fqdn r label) name (parse_addr ip), y)
              (same_list r r' q raw (parse_addr ip) refl)
        | inr n ↦
            rw (e, get-put r.records (fqdn r label) name (parse_addr ip), n)
              (let o = found_address (get r.records name) in
                cc (same_list r r' q raw o refl, same_list r r q raw o refl))
      ]
