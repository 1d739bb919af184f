-- ===== src/Dns.antt =====
-- client/internal/dns/resolver.go: the mesh resolver's records, its blocklist, and the answer to a
-- query. Addresses are IPv4 in dotted form: a record whose text is none of these has no address.
-- The wire format (golang.org/x/net/dns/dnsmessage) and the exchange with the upstream server are
-- parameters. Names are ASCII.
pub mod Blocking
pub mod Records
use blinex.Prelude.{
  ℕ, Bool, true, false, ◌&&◌, ◌||◌, Option, none, some, List, [], ◌∷◌, ◌++◌, ◌==◌, nat_eq,
  if◌then◌else◌, any,
}
use blinex.Prelude.Text.{Text, text, text_eq, to_lower, trim_last, trim, is_space, split, join}
use blinex.Prelude.Dict.{Dict, get, put, remove}
use blinex.Netip.{Addr, parse_addr}

abbrev pub dot : ℕ
dot = b'.'

-- `blocked` is the set of the names, as their list.
pub record Resolver : Type 0 where
  pub suffix : Text
  pub records : Dict Text (Option Addr)
  pub blocked : List Text

abbrev is_dot : ℕ → Bool
is_dot c = c == dot

-- `New`
unfoldable pub new : Text → Resolver
new suffix = record { suffix = to_lower (trim is_dot suffix); records = []; blocked = [] }

-- A domain of the list, as it is compared.
unfoldable pub normal : Text → Text
normal d = to_lower (trim_last dot (trim is_space d))

-- The loop of `SetBlocklist`.
unfoldable pub blocked_names : List Text → List Text
blocked_names [] = []
blocked_names (d ∷ ds) =
    if normal d == [] then blocked_names ds else (normal d ++ text ".") ∷ blocked_names ds

-- `SetBlocklist`
unfoldable pub set_blocklist : Resolver → List Text → Resolver
unfolding blocked_names
set_blocklist r domains = record r { blocked = blocked_names domains }

unfoldable pub is_empty {ℓ} : {A : Type ℓ} → List A → Bool
is_empty [] = true
is_empty (x ∷ xs) = false

-- The loop of `isBlocked` over the labels from each one on.
unfoldable pub some_tail_blocked : List Text → List Text → Bool
some_tail_blocked blocked [] = false
some_tail_blocked blocked (l ∷ labels) =
    any (λ b. b == join dot (l ∷ labels) ++ text ".") blocked || some_tail_blocked blocked labels

-- `isBlocked`
unfoldable pub is_blocked : Resolver → Text → Bool
unfolding some_tail_blocked is_empty
is_blocked r name =
    if is_empty r.blocked
    then false
    else some_tail_blocked r.blocked (split dot (trim_last dot name))

-- The name under which a label's record stands.
unfoldable pub fqdn : Resolver → Text → Text
fqdn r label = to_lower (label ++ text "." ++ r.suffix) ++ text "."

-- `Upsert`
unfoldable pub upsert : Resolver → Text → Text → Resolver
upsert r label ip = record r { records = put r.records (fqdn r label) (parse_addr ip) }

-- `Remove`
unfoldable pub remove_record : Resolver → Text → Resolver
remove_record r label = record r { records = remove r.records (fqdn r label) }

pub record Question : Type 0 where
  pub name : Text
  pub qtype : ℕ

-- `dnsmessage.TypeA`
abbrev pub type_a : ℕ
type_a = 1

-- What is sent back. `silent` is no answer, `relayed` the upstream's.
pub data Reply : Type 0 where
  silent name_error server_failure : Reply
  address : Question → Addr → Reply
  relayed : List ℕ → Reply

-- `forward`: `upstream` is the exchange, `none` an error in it.
unfoldable pub forward : (List ℕ → Option (List ℕ)) → List ℕ → Reply
forward upstream raw = elim (upstream raw) [ none ↦ server_failure | some r ↦ relayed r ]

-- The address of a record, if there is one.
abbrev pub found_address : Option (Option Addr) → Option Addr
found_address none = none
found_address (some a) = a

without_record : Resolver → (List ℕ → Option (List ℕ)) → Text → List ℕ → Reply
without_record r upstream name raw = if is_blocked r name then name_error else forward upstream raw

reply_to : Resolver → (List ℕ → Option (List ℕ)) → Question → List ℕ → Option Addr → Reply
unfolding without_record
reply_to r upstream q raw none = without_record r upstream (to_lower q.name) raw
reply_to r upstream q raw (some a) =
    if q.qtype == type_a then address q a else without_record r upstream (to_lower q.name) raw

-- The answer to the questions of a message, of which the first counts.
reply_first : Resolver → (List ℕ → Option (List ℕ)) → List ℕ → Option (List Question) → Reply
unfolding reply_to
reply_first r upstream raw none = silent
reply_first r upstream raw (some []) = silent
reply_first r upstream raw (some (q ∷ qs)) =
    reply_to r upstream q raw (found_address (get r.records (to_lower q.name)))

-- `handle`: `unpack` reads the questions of a packet.
unfoldable pub handle :
    (List ℕ → Option (List Question)) → (List ℕ → Option (List ℕ)) → Resolver → List ℕ → Reply
unfolding reply_first
handle unpack upstream r raw = reply_first r upstream raw (unpack raw)
