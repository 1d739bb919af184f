-- ===== src/Engine/Routes/Tracking.antt =====
-- client/internal/engine/engine.go, `applyOSRoutes`: the commands against the record of routes.
use blinex.Prelude.{
  Bool, true, false, not, ◌&&◌, ◌||◌, Option, none, some, List, [], ◌∷◌, ◌++◌, ◌==◌, any, keep, ◌≡◌,
  refl, inl, inr, arith, Bool-cases,
}
use blinex.Prelude.Text.{Text, text_eq, text_beq_iff}
use blinex.Prelude.Dict.{Dict, get, beq_refl}
use blinex.Engine.Routes.{
  Command, mem, is_default_route, diff_removed, diff_added, removals, additions, cidrs,
  apply_os_routes, update_routes,
}

-- Whether a route is set after commands that all succeed, the first one first.
unfoldable pub is_set : List Command → Bool → Text → Bool
is_set [] b c = b
is_set (Command.add_route d ∷ cs) b c = is_set cs (b || d == c) c
is_set (Command.remove_route d ∷ cs) b c = is_set cs (b && not (d == c)) c

is_set-append :
    (xs ys : List Command) (b : Bool) (c : Text)
    → is_set (xs ++ ys) b c ≡ is_set ys (is_set xs b c) c
unfolding is_set
is_set-append [] ys b c = refl
is_set-append (Command.add_route d ∷ xs) ys b c = is_set-append xs ys (b || d == c) c
is_set-append (Command.remove_route d ∷ xs) ys b c = is_set-append xs ys (b && not (d == c)) c

module _ (c : Text) (plain : is_default_route c ≡ false) where
  same_default : (d : Text) → d == c ≡ true → is_default_route d ≡ false
  same_default d h = let e : d ≡ c = (text_beq_iff d c).0 h in cc (e, plain)

  is_set-removals : (ds : List Text) (b : Bool) → is_set (removals ds) b c ≡ b && not (mem c ds)
  unfolding is_set removals any
  is_set-removals [] b = ground arith
  is_set-removals (d ∷ ds) b =
      ground (arith, same_default d, is_set-removals ds b, is_set-removals ds (b && not (d == c)))

  is_set-additions : (ds : List Text) (b : Bool) → is_set (additions ds) b c ≡ b || mem c ds
  unfolding is_set additions any
  is_set-additions [] b = ground arith
  is_set-additions (d ∷ ds) b =
      ground (arith, same_default d, is_set-additions ds b, is_set-additions ds (b || d == c))

  mem-keep : (l ds : List Text) → mem c (keep (λ s. not (mem s l)) ds) ≡ mem c ds && not (mem c l)
  unfolding any keep
  mem-keep l [] = ground arith
  mem-keep l (d ∷ ds) = elim (Bool-cases (d == c)) [
    | inl y ↦
        let e : d ≡ c = (text_beq_iff d c).0 y in
        let f : mem d l ≡ mem c l = cc e in ground (arith, f, mem-keep l ds)
    | inr n ↦ ground (arith, mem-keep l ds)
  ]

  -- If, of the routes that are no default route, those set for a peer are the recorded ones, then the
  -- commands of an update, when they succeed, leave set the new ones.
  pub apply_os_routes-is_set :
      (applied : Dict Text (List Text)) (key : Text) (old new : Option (List Text)) (b : Bool)
      → b ≡ mem c (cidrs old)
      → is_set (apply_os_routes applied key old new).0 b c ≡ mem c (cidrs new)
  unfolding apply_os_routes diff_removed diff_added
  apply_os_routes-is_set applied key old new b h =
      let o = cidrs old in
      let n = cidrs new in
      let r = removals (diff_removed o n) in
      ground (
        arith,
        is_set-append r (additions (diff_added o n)) b c,
        is_set-removals (diff_removed o n) b,
        is_set-additions (diff_added o n) (is_set r b c),
        mem-keep n o,
        mem-keep o n,
      )

none_kept :
    (l ds : List Text)
    → ((s : Text) → mem s ds ≡ true → mem s l ≡ true)
    → keep (λ s. not (mem s l)) ds ≡ []
unfolding keep any
none_kept l [] h = refl
none_kept l (d ∷ ds) h =
    let e : mem d l ≡ true = h d (ground (arith, beq_refl d)) in
    ground (arith, e, none_kept l ds (λ s m. h s (ground (arith, m))))

-- Routes that a peer withdraws altogether and then advertises again are not set again: the record
-- still has them, and the second update gives no command.
pub update_routes_readvertised :
    (applied : Dict Text (List Text)) (key : Text) (routes : List Text)
    → get applied key ≡ some routes
    → (update_routes (update_routes applied key none).1 key (some routes)).0 ≡ []
unfolding update_routes apply_os_routes diff_removed diff_added removals additions
update_routes_readvertised applied key routes h = rw (h, none_kept routes routes (λ s m. m)) refl
