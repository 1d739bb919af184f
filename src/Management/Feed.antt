-- ===== src/Management/Feed.antt =====
-- management/internal/blocklist/blocklist.go, and `GetBlocklist` of grpcserver/server.go: the feed of
-- blocked domains and its versions. `sha256_hex` is crypto/sha256 with encoding/hex, and a feed's
-- body is what the HTTP exchange gave, `none` after an error, another status or a failed read. Text
-- is ASCII. The order of the parsed domains is that of the list; Go's is any.
pub mod Versions
use blinex.Prelude.{
  ℕ, Bool, true, false, not, ◌&&◌, ◌||◌, Option, none, some, List, [], ◌∷◌, ◌++◌, ◌==◌, nat_eq, ltb,
  leb, if◌then◌else◌, length, any,
}
use blinex.Prelude.Text.{
  Text, text, text_eq, trim, trim_last, is_space, split, to_lower, has_prefix,
}
use blinex.Management.Login.{Code, Result, speaks_for}

-- `Store`
pub record FeedStore : Type 0 where
  pub domains : List Text
  pub version : Text

-- `NewStore`
abbrev pub new_store : FeedStore
new_store = record { domains = []; version = [] }

abbrev pub add_word : Text → List Text → List Text
add_word [] ws = ws
add_word (c ∷ w) ws = (c ∷ w) ∷ ws

-- The word that a text begins with, and those behind it.
unfoldable pub chunks : Text → Text × List Text
chunks [] = ([], [])
chunks (c ∷ s) =
    let rest = chunks s in if is_space c then ([], add_word rest.0 rest.1) else (c ∷ rest.0, rest.1)

-- `strings.Fields`
unfoldable pub fields : Text → List Text
unfolding chunks
fields s = let (w, ws) = chunks s in add_word w ws

-- The field of a line that names the domain; a line that is not blank has one.
abbrev pub pick : List Text → Text
pick [] = []
pick (f ∷ []) = f
pick (f ∷ g ∷ rest) = if f == text "0.0.0.0" || f == text "127.0.0.1" then g else f

abbrev pub clean : Text → Text
clean d = to_lower (trim_last b'.' d)

-- The domain of a line, if it has one.
unfoldable pub domain_of : Text → Option Text
unfolding fields
domain_of line =
    let l = trim is_space line in
    let d = clean (pick (fields l)) in
    if l == [] || has_prefix l (text "#")
    then none
    else if d == [] || d == text "localhost"
    then none
    else some d

-- `seen[domain] = struct{}{}`
abbrev pub add_domain : Option Text → List Text → List Text
add_domain none seen = seen
add_domain (some d) seen = if any (λ e. e == d) seen then seen else d ∷ seen

-- The loop of `parse`.
unfoldable pub collect : List Text → List Text → List Text
unfolding domain_of
collect [] seen = seen
collect (line ∷ lines) seen = collect lines (add_domain (domain_of line) seen)

-- A line that the scanner's buffer of 1 MiB does not hold.
abbrev pub is_too_long : Text → Bool
is_too_long line = leb 1_048_576 (length line)

-- `parse`
unfoldable pub parse : Text → Option (List Text)
unfolding collect
parse body =
    if any is_too_long (split b'\n' body) then none else some (collect (split b'\n' body) [])

-- `a <= b` on strings.
unfoldable pub text_leb : Text → Text → Bool
text_leb [] t = true
text_leb (a ∷ s) [] = false
text_leb (a ∷ s) (b ∷ t) = let rest = text_leb s t in ltb a b || (a == b && rest)

unfoldable pub insert_text : Text → List Text → List Text
unfolding text_leb
insert_text a [] = a ∷ []
insert_text a (b ∷ l) = let rest = insert_text a l in if text_leb a b then a ∷ b ∷ l else b ∷ rest

-- `sort.Strings`
unfoldable pub sort_texts : List Text → List Text
unfolding insert_text
sort_texts [] = []
sort_texts (a ∷ l) = insert_text a (sort_texts l)

-- What is hashed.
unfoldable pub lines_text : List Text → Text
lines_text [] = []
lines_text (d ∷ ds) = d ++ b'\n' ∷ lines_text ds

module _ (sha256_hex : Text → Text) where
  -- `hashDomains`
  unfoldable pub hash_domains : List Text → Text
  unfolding sort_texts lines_text
  hash_domains domains = sha256_hex (lines_text (sort_texts domains))

  unfoldable pub refreshed : FeedStore → Option (List Text) → FeedStore
  unfolding hash_domains
  refreshed s none = s
  refreshed s (some domains) = record { domains = domains; version = hash_domains domains }

  unfoldable pub fetched : Option Text → Option (List Text)
  fetched none = none
  fetched (some body) = parse body

  -- `refresh`
  unfoldable pub refresh : FeedStore → Option Text → FeedStore
  unfolding refreshed fetched
  refresh s body = refreshed s (fetched body)

pub record BlocklistResponse : Type 0 where
  pub version : Text
  pub domains : List Text
  pub not_modified : Bool

unfoldable pub answer_from : Option FeedStore → Text → BlocklistResponse
answer_from none known = record { version = []; domains = []; not_modified = not (known == []) }
answer_from (some s) known =
    if s.version == []
    then record { version = []; domains = []; not_modified = not (known == []) }
    else if not (known == []) && known == s.version
    then record { version = s.version; domains = []; not_modified = true }
    else record { version = s.version; domains = s.domains; not_modified = false }

-- `GetBlocklist`; a server without a feed has no store.
unfoldable pub get_blocklist :
    Option FeedStore → Option Text → Text → Text → Result BlocklistResponse
unfolding answer_from
get_blocklist s claims key known =
    if key == []
    then Result.fail Code.invalid_argument
    else if not (speaks_for claims key)
    then Result.fail Code.permission_denied
    else Result.done (answer_from s known)
