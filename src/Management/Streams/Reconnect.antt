-- ===== src/Management/Streams/Reconnect.antt =====
-- management/internal/grpcserver/server.go, `Sync`: what the end of a stream does to a later stream of
-- the same peer.
use blinex.Prelude.{
  ℕ, ◌≡◌, ◌≢◌, refl, false, none, some, arith, nat_eq, nat_beq_iff, List, [], ◌∷◌, ap,
}
use blinex.Prelude.Text.{Text, text_eq}
use blinex.Prelude.Dict.{Dict, get, remove, get-remove, get-put_self, beq_refl}
use blinex.Management.Login.{SyncSub, notify_all}
use blinex.Management.Streams.{
  Stream, Hub, detach, unregister_sub, touch_last_seen, is_connected, own_sub, pushed, round,
  sync_round, ended, sync_end, notify_account,
}

-- Notifications, one after the other.
unfoldable pub notify_each : Hub → List Text → Hub
notify_each h [] = h
notify_each h (account ∷ rest) = notify_each (notify_account h account) rest

-- The stream runs, and no notification reaches it.
record Deaf (h : Hub) (j : ℕ) (y : Stream) : Type 0 where
  runs : get h.running j ≡ some y
  unregistered : get h.server.subs y.key ≡ none
  empty : get h.detached j ≡ some false

notify_all-none :
    (m : Dict Text SyncSub) (account key : Text)
    → get m key ≡ none
    → get (notify_all m account) key ≡ none
unfolding get notify_all
notify_all-none [] account key h = refl
notify_all-none ((k, sub) ∷ m) account key h = ground (arith, notify_all-none m account key)

notify_account-Deaf :
    (h : Hub) (j : ℕ) (y : Stream) (account : Text)
    → Deaf h j y
    → Deaf (notify_account h account) j y
unfolding notify_account
notify_account-Deaf h j y account d = record {
  runs = d.runs;
  unregistered = notify_all-none h.server.subs account y.key d.unregistered;
  empty = d.empty;
}

notify_each-Deaf :
    (h : Hub) (j : ℕ) (y : Stream) (accounts : List Text)
    → Deaf h j y
    → Deaf (notify_each h accounts) j y
unfolding notify_each
notify_each-Deaf h j y [] d = d
notify_each-Deaf h j y (account ∷ rest) d =
    notify_each-Deaf (notify_account h account) j y rest (notify_account-Deaf h j y account d)

silent :
    (network : Text) (h : Hub) (j : ℕ) (y : Stream)
    → Deaf h j y
    → (is_connected h.server y.key ≡ false) × ((sync_round network h j).0 ≡ none)
unfolding sync_round round pushed own_sub is_connected
silent network h j y d = (rw d.unregistered refl, rw (d.runs, d.unregistered, d.empty) refl)

sync_end-Deaf :
    (h : Hub) (i j now : ℕ) (x y : Stream) (sub : SyncSub)
    → get h.running i ≡ some x
    → get h.running j ≡ some y
    → i ≢ j
    → x.key ≡ y.key
    → get h.server.subs y.key ≡ some sub
    → sub.ch ≡ j
    → sub.marked ≡ false
    → Deaf (sync_end h i now) j y
unfolding sync_end ended unregister_sub touch_last_seen
sync_end-Deaf h i j now x y sub ri rj ne same g c m = rw ri (record {
  runs = rw (get-remove h.running i j) (ground (arith, rj, ne, nat_beq_iff i j));
  unregistered =
      notify_all-none (remove h.server.subs x.key) x.account_id y.key
        (rw same (rw (get-remove h.server.subs y.key y.key, beq_refl y.key) refl));
  empty =
      rw same
        (rw g (unfold detach in rw c (rw (get-put_self h.detached j sub.marked) (ap some m))));
})

-- A peer that has opened a new stream before its old one ended loses the new one's subscription when
-- the old one ends: the peer counts as not connected, and whatever accounts are notified after that,
-- the new stream, though it runs, sends nothing, where its channel held no value before.
pub sync_end-silences :
    (network : Text) (h : Hub) (i j now : ℕ) (x y : Stream) (sub : SyncSub) (accounts : List Text)
    → get h.running i ≡ some x
    → get h.running j ≡ some y
    → i ≢ j
    → x.key ≡ y.key
    → get h.server.subs y.key ≡ some sub
    → sub.ch ≡ j
    → sub.marked ≡ false
    → (is_connected (notify_each (sync_end h i now) accounts).server y.key ≡ false)
      × ((sync_round network (notify_each (sync_end h i now) accounts) j).0 ≡ none)
sync_end-silences network h i j now x y sub accounts ri rj ne same g c m =
    silent network (notify_each (sync_end h i now) accounts) j y (
      notify_each-Deaf (sync_end h i now) j y accounts
        (sync_end-Deaf h i j now x y sub ri rj ne same g c m))
