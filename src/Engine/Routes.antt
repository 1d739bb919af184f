-- ===== src/Engine/Routes.antt =====
-- client/internal/engine/engine.go, `applyOSRoutes`: the routes that an agent sets for a peer, and
-- its record of them. What `routing.AddRoute` and `routing.RemoveRoute` are asked is the result, as
-- commands; a failed addition is only logged.
pub mod Tracking
use blinex.Prelude.{
  ℕ, Bool, true, false, not, ◌||◌, Option, none, some, List, [], ◌∷◌, ◌++◌, ◌==◌, if◌then◌else◌,
  any, keep,
}
use blinex.Prelude.Text.{Text, text, text_eq}
use blinex.Prelude.Dict.{Dict, get, put}

pub data Command : Type 0 where
  add_route remove_route : Text → Command

abbrev pub mem : Text → List Text → Bool
mem c l = any (λ s. s == c) l

-- `isDefaultRoute`
unfoldable pub is_default_route : Text → Bool
is_default_route cidr = cidr == text "0.0.0.0/0" || cidr == text "::/0"

-- `diffRemoved`
unfoldable pub diff_removed : List Text → List Text → List Text
diff_removed old new = keep (λ s. not (mem s new)) old

-- `diffAdded`
unfoldable pub diff_added : List Text → List Text → List Text
diff_added old new = keep (λ s. not (mem s old)) new

unfoldable pub removals : List Text → List Command
removals [] = []
removals (c ∷ cs) = if is_default_route c then removals cs else Command.remove_route c ∷ removals cs

unfoldable pub additions : List Text → List Command
additions [] = []
additions (c ∷ cs) = if is_default_route c then additions cs else Command.add_route c ∷ additions cs

-- A nil slice is read as an empty one.
abbrev pub cidrs : Option (List Text) → List Text
cidrs none = []
cidrs (some l) = l

recorded : Dict Text (List Text) → Text → Option (List Text) → Dict Text (List Text)
recorded applied key none = applied
recorded applied key (some new) = put applied key new

-- `applyOSRoutes`, on the map `appliedRoutes`; `none` is a nil slice.
unfoldable pub apply_os_routes :
    Dict Text (List Text)
    → Text
    → Option (List Text)
    → Option (List Text)
    → List Command × Dict Text (List Text)
unfolding removals additions diff_removed diff_added recorded
apply_os_routes applied key old new = (
  removals (diff_removed (cidrs old) (cidrs new)) ++ additions (diff_added (cidrs old) (cidrs new)),
  recorded applied key new,
)

-- The call for a peer that is updated.
unfoldable pub update_routes :
    Dict Text (List Text) → Text → Option (List Text) → List Command × Dict Text (List Text)
update_routes applied key new = apply_os_routes applied key (get applied key) new
