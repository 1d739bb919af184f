-- ===== src/Engine/Blocklist.antt =====
-- client/internal/engine/engine.go, `pollBlocklist`: the agent's copy of the feed of blocked domains.
pub mod Current
use blinex.Prelude.{Bool, true, false, ◌||◌, Option, none, some, List, [], ◌∷◌, ◌==◌, if◌then◌else◌}
use blinex.Prelude.Text.{Text, text_eq}
use blinex.Dns.{Resolver, set_blocklist}
use blinex.Management.Login.{Code, Result}
use blinex.Management.Feed.{BlocklistResponse}

-- `knownVersion`, and the resolver of the engine.
pub record Poller : Type 0 where
  pub known : Text
  pub dns : Resolver

-- `fetch`, with the outcome of the call; a call that does not get through fails too.
unfoldable pub fetch : Poller → Result BlocklistResponse → Poller
fetch p (Result.fail code) = p
fetch p (Result.done r) =
    if r.not_modified || r.version == []
    then p
    else record { known = r.version; dns = set_blocklist p.dns r.domains }
