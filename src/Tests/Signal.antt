-- ===== src/Tests/Signal.antt =====
-- Two peers at the signal server: bob's offer is held for alice, who connects later.
use blinex.Prelude.{
  ℕ, ◌≡◌, refl, ◌≢◌, ◌⊎◌, inr, Bool, true, none, some, List, [], ◌∷◌, ◌++◌, map, arith, nat_eq, All,
}
use blinex.Prelude.Text.{Text, text, text_eq, text_beq}
use blinex.Prelude.Dict.{get, put, remove, evict}
use blinex.Signal.{
  BodyType, Message, Pending, new, running, queued, enqueue, expire_pending, handle_absent_target,
  receive, take_pending, route, Meanwhile, Server, register, disconnect,
}
use blinex.Signal.Identity.{Alive, Authentic, Goes, speaks_as_itself, receive-Goes}
use blinex.Signal.Queue.{Event, new-Inv, run, run-Inv, step}
use blinex.Signal.Reconnect.{held_is_delivered}

abbrev alice : Text
alice = text "alice"

abbrev bob : Text
bob = text "bob"

abbrev offer : Message
offer = record { key = bob; remote_key = alice; body = BodyType.offer; payload = []; raw = [] }

abbrev answer : Message
answer = record { key = alice; remote_key = bob; body = BodyType.answer; payload = []; raw = [] }

abbrev always : ℕ → Message → Bool
always stream m = true

-- No other handler runs in between.
abbrev alone : Meanwhile
alone = record { delivering = λ s. s; looked_up = λ s. s }

accepted : (receive always alone new 1 (some bob) [] offer 7).0 ≡ running bob
unfolding receive text_beq
accepted = refl

speaks_as_itself_example :
    (bob ≡ bob) × (bob ≢ []) × ((◌≡◌ {A = Text} [] []) ⊎ (bob ≡ [])) × Authentic (some bob) bob
speaks_as_itself_example =
    speaks_as_itself {auth_key = some bob} {peer_key = []} bob Alive.fresh always alone new 1 offer
      7 accepted

-- Bob is registered, and his offer is held for alice.
abbrev offered : List Event
offered = Event.registers 1 bob 6 ∷ Event.is_absent offer 7 ∷ []

abbrev held_offer : Pending
held_offer = record { msgs = offer ∷ []; at = 7 }

held : get (run new offered).pending alice ≡ some held_offer
unfolding run step register new text_beq put get remove take_pending handle_absent_target
    expire_pending evict enqueue
held = refl

-- Alice's first message is for bob: she is sent the offer, and he her message.
sent_both :
    (receive always alone (run new offered) 2 (some alice) [] answer 9).1
    ≡ record { stream = 2; msg = offer } ∷ record { stream = 1; msg = answer } ∷ []
unfolding run step receive register new text_beq put get remove take_pending route
    handle_absent_target expire_pending evict enqueue
sent_both = refl

receive-Goes_example :
    All
      (Goes alone (run new offered) 2 [] answer 9)
      (receive always alone (run new offered) 2 (some alice) [] answer 9).1
receive-Goes_example =
    receive-Goes always alone (run new offered) 2 (some alice) [] answer 9
      (run-Inv new offered new-Inv)

-- Bob ends before alice registers, which leaves what is held as it was.
abbrev after_bob : Server
after_bob = disconnect (handle_absent_target new offer 7) 1 bob

same_queue : get after_bob.pending alice ≡ get (handle_absent_target new offer 7).pending alice
unfolding disconnect
same_queue = ground arith

held_is_delivered_example :
    ((receive always alone after_bob 2 (some alice) [] answer 9).1
      ≡ map
          (λ x. record { stream = 2; msg = x })
          (enqueue (queued (get (expire_pending new 7).pending alice)) offer)
        ++ (route always alone (register after_bob 2 alice 9).1 answer 9).0)
    × (get (register after_bob 2 alice 9).1.pending alice ≡ none)
held_is_delivered_example =
    held_is_delivered always alone new after_bob offer answer 2 7 9 (some alice) (λ x. refl)
      same_queue refl (omega arith) refl (λ e. cc e) (inr refl)
