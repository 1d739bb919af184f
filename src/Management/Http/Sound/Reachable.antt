-- ===== src/Management/Http/Sound/Reachable.antt =====
-- management/internal: what holds of the store whatever calls the two servers of the control plane
-- have answered, those of the HTTP API, `Login` and `UpdatePeerMeta`.
use blinex.Prelude.{
  ℕ, ◌≡◌, refl, inl, inr, none, some, arith, ◌==◌, Bool-cases, List, [], ◌∷◌, Option, Bool, any,
  subst, sym,
}
use blinex.Prelude.Text.{Text, text_eq, text_beq, text_beq_iff, has_prefix, to_lower}
use blinex.Prelude.Dict.{get}
use blinex.Management.Domain.{Peer, SetupKey, default_group_name}
use blinex.Management.Ipam.{allocate}
use blinex.Management.RateLimit.{allow}
use blinex.Management.Store.{new, get_peer, save_peer, get_setup_key, increment_setup_key_usage}
use blinex.Management.Login.{
  Server, Call, PeerMeta, first_groups, new_peer, preserved, merged, finish, enrol, with_key, login,
  updated, saved, update_peer_meta,
}
use blinex.Management.Auth.{Claims}
use blinex.Management.Http.{Api, Env}
use blinex.Management.Http.Dispatch.{Route, serve}
use blinex.Management.Http.Rules.{
  validate_rule_fields, field_ok, port_ok, is_valid_protocol, is_valid_action,
}
use blinex.Management.Http.Sound.{Every-get, Every-put, InDefault, Sound, SoundApi}
use blinex.Management.Http.Sound.Handlers.{serve_sound}

merged-InDefault :
    (sk : SetupKey) (c : Call) (key ip : Text) (meta : PeerMeta) (old : Option Peer) (q : Peer)
    → ((p : Peer) → old ≡ some p → InDefault p)
    → merged sk (new_peer c sk key ip meta) old ≡ some q
    → InDefault q
unfolding merged new_peer preserved first_groups any
merged-InDefault sk c key ip meta none q d h =
    let e : new_peer c sk key ip meta ≡ q = cc h in
    subst InDefault e (ground (arith, text_beq_iff default_group_name default_group_name))
merged-InDefault sk c key ip meta (some old) q d h =
    elim (Bool-cases (old.account_id == sk.account_id)) [
      | inl y ↦
          let e : preserved (new_peer c sk key ip meta) old ≡ q = ground arith in
          subst InDefault e (d old refl)
      | inr n ↦ ground arith
    ]

module _ (ipv6 : Text → Bool) (issue_token : Text → Text → Text → Text) where
  abbrev SoundServer : Server → Type 0
  SoundServer s = Sound ipv6 s.store

  finish_sound :
      (s : Server) (sk : SetupKey) (o : Option Peer) (ip : Text)
      → SoundServer s
      → ((q : Peer) → o ≡ some q → InDefault q)
      → SoundServer (finish issue_token s sk o ip).1
  unfolding finish save_peer increment_setup_key_usage
  finish_sound s sk none ip h d = h
  finish_sound s sk (some q) ip h d = record {
    peers = Every-put InDefault s.store.peers q.wg_pub_key q (d q refl) h.peers;
    rules = h.rules;
  }

  enrol_sound :
      (s : Server) (c : Call) (sk : SetupKey) (key : Text) (meta : PeerMeta) (ip : Option Text)
      → SoundServer s
      → SoundServer (enrol issue_token s c sk key meta ip).1
  unfolding enrol get_peer
  enrol_sound s c sk key meta none h = h
  enrol_sound s c sk key meta (some ip) h =
      let old = get s.store.peers key in
      finish_sound s sk (merged sk (new_peer c sk key ip meta) old) ip h (λ q e.
        merged-InDefault sk c key ip meta old q
          (λ p g. Every-get InDefault s.store.peers key p h.peers g) e)

  with_key_sound :
      (s : Server) (c : Call) (key : Text) (meta : PeerMeta) (o : Option SetupKey)
      → SoundServer s
      → SoundServer (with_key issue_token s c key meta o).1
  unfolding with_key
  with_key_sound s c key meta none h = h
  with_key_sound s c key meta (some sk) h =
      let s' = record s { ipam = (allocate s.ipam key).1 } in
      let t =
        enrol_sound s' c sk key meta (allocate s.ipam key).0
          (record { peers = h.peers; rules = h.rules }) in
      ground (arith, h, t)

  login_sound :
      (s : Server) (c : Call) (setup_key key : Text) (meta : PeerMeta)
      → SoundServer s
      → SoundServer (login issue_token s c setup_key key meta).1
  unfolding login
  login_sound s c setup_key key meta h =
      let s' : Server = record s { login_limits = (allow s.login_limits c.source_ip c.now).1 } in
      let h' : SoundServer s' = record { peers = h.peers; rules = h.rules } in
      let t = with_key_sound s' c key meta (get_setup_key s'.store setup_key c.now) h' in
      ground (arith, h', t)

  saved_sound :
      (s : Server) (c : Call) (key : Text) (meta : Option PeerMeta) (o : Option Peer)
      → get s.store.peers key ≡ o
      → SoundServer s
      → SoundServer (saved s c meta o).1
  unfolding saved updated save_peer
  saved_sound s c key meta none g h = h
  saved_sound s c key none (some p) g h = record {
    peers =
        Every-put InDefault s.store.peers p.wg_pub_key (record p { last_seen = c.now })
          (Every-get InDefault s.store.peers key p h.peers g) h.peers;
    rules = h.rules;
  }
  saved_sound s c key (some meta) (some p) g h = record {
    peers =
        Every-put InDefault s.store.peers p.wg_pub_key (updated p c (some meta))
          (Every-get InDefault s.store.peers key p h.peers g) h.peers;
    rules = h.rules;
  }

  update_peer_meta_sound :
      (s : Server) (c : Call) (claims : Option Text) (key : Text) (meta : Option PeerMeta)
      → SoundServer s
      → SoundServer (update_peer_meta s c claims key meta).1
  unfolding update_peer_meta get_peer
  update_peer_meta_sound s c claims key meta h =
      ground (arith, h, saved_sound s c key meta (get s.store.peers key) refl h)

-- A call that one of the servers answers.
pub data Event : Type 0 where
  request : Env → Text → Route → Event
  enrolment : Call → Text → Text → PeerMeta → Event
  own_facts : Call → Option Text → Text → Option PeerMeta → Event

module _ (parse : Text → Option Claims) (issue_token : Text → Text → Text → Text)
    (ipv6 ipv6_route : Text → Bool) where
  unfoldable pub answer : Api → Event → Api
  answer a (Event.request e header route) = (serve parse ipv6 ipv6_route a e header route).1
  answer a (Event.enrolment c setup_key key meta) = record a {
    server = (login issue_token a.server c setup_key key meta).1;
  }
  answer a (Event.own_facts c claims key meta) = record a {
    server = (update_peer_meta a.server c claims key meta).1;
  }

  unfoldable pub run_events : Api → List Event → Api
  run_events a [] = a
  run_events a (x ∷ xs) = run_events (answer a x) xs

  answer_sound : (a : Api) (x : Event) → SoundApi ipv6 a → SoundApi ipv6 (answer a x)
  unfolding answer
  answer_sound a (Event.request e header route) h =
      serve_sound ipv6 ipv6_route parse a e header route h
  answer_sound a (Event.enrolment c setup_key key meta) h =
      login_sound ipv6 issue_token a.server c setup_key key meta h
  answer_sound a (Event.own_facts c claims key meta) h =
      update_peer_meta_sound ipv6 issue_token a.server c claims key meta h

  run_sound : (a : Api) (xs : List Event) → SoundApi ipv6 a → SoundApi ipv6 (run_events a xs)
  unfolding run_events
  run_sound a [] h = h
  run_sound a (x ∷ xs) h = run_sound (answer a x) xs (answer_sound a x h)

  new-Sound : (seed_key key_id : Text) (now : ℕ) → Sound ipv6 (new seed_key key_id now)
  unfolding new validate_rule_fields field_ok is_valid_protocol port_ok is_valid_action text_beq
      has_prefix to_lower
  new-Sound seed_key key_id now = record { peers = tt; rules = ((refl, refl), tt) }

  -- From the seeded store on, after any sequence of API requests, enrolments and updates of a
  -- peer's own facts, accepted or refused, every stored peer is in the default group, and every
  -- stored rule has the action "allow" or "deny" and fields that the API's validation accepts.
  pub run_events-Sound :
      (a : Api) (seed_key key_id : Text) (now : ℕ) (xs : List Event)
      → a.server.store ≡ new seed_key key_id now
      → Sound ipv6 (run_events a xs).server.store
  run_events-Sound a seed_key key_id now xs h =
      run_sound a xs (subst (Sound ipv6) (sym h) (new-Sound seed_key key_id now))
