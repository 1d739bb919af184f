-- ===== src/Management/Login/Enrolment.antt =====
-- management/internal/grpcserver/server.go, `Login`: what an enrolment stores, and what a refusal
-- leaves as it was.
use blinex.Prelude.{
  subst, ap, false, ◌&&◌, ◌||◌, Option, none, some, [], ◌++◌, ◌≡◌, refl, inl, inr, arith, ◌==◌, ltb,
  Bool-cases,
}
use blinex.Prelude.Text.{Text, text, text_eq, text_beq_iff}
use blinex.Prelude.Dict.{put}
use blinex.Management.Domain.{SetupKey, Peer}
use blinex.Management.Ipam.{Ipam, allocate}
use blinex.Management.RateLimit.{allow}
use blinex.Management.Store.{
  Store, get_setup_key, increment_setup_key_usage, get_peer, save_peer, count_use,
}
use blinex.Management.Login.{
  Server, PeerMeta, first_groups, Call, Code, Result, LoginResponse, new_peer, preserved, merged,
  finish, enrol, with_key, login,
}

-- The fields of a peer that an operator may have set, or that its first enrolment has, but the exit
-- node.
pub record SameIdentity (old peer : Peer) : Type 0 where
  pub id : peer.id ≡ old.id
  pub account : peer.account_id ≡ old.account_id
  pub created : peer.created_at ≡ old.created_at
  pub groups : peer.groups ≡ old.groups
  pub routes : peer.advertised_routes ≡ old.advertised_routes
  pub hostname : peer.hostname ≡ old.hostname
  pub dns_label : peer.dns_label ≡ old.dns_label

-- What the record that is saved has to do with the one that stood there.
abbrev pub Continues : Option Peer → Call → SetupKey → Peer → Type 0
Continues none c sk peer = (peer.id ≡ c.new_id) × (peer.groups ≡ first_groups sk)
Continues (some old) c sk peer = SameIdentity old peer

-- The record that is saved for a key.
pub record Merged (old : Option Peer) (c : Call) (sk : SetupKey) (key ip : Text) (peer : Peer)
    : Type 0 where
  pub owner : peer.account_id ≡ sk.account_id
  pub own_key : peer.wg_pub_key ≡ key
  pub own_ip : peer.ip ≡ ip
  pub no_exit_node : peer.exit_node ≡ []
  pub continues : Continues old c sk peer

-- A successful enrolment: the setup key it used, the address it leased, and the record it saved.
pub record Enrolled (st : Store) (ipam : Ipam) (st' : Store) (c : Call) (setup_key key : Text)
    (r : LoginResponse) : Type 0 where
  pub sk : SetupKey
  pub valid : get_setup_key st setup_key c.now ≡ some sk
  pub unused : sk.ephemeral && ltb 0 sk.used_count ≡ false
  pub ip : Text
  pub leased : (allocate ipam key).0 ≡ some ip
  pub address : r.address ≡ ip ++ text "/32"
  pub peer : Peer
  pub response : r.peer_id ≡ peer.id
  pub merged : Merged (get_peer st key) c sk key ip peer
  pub peers : st'.peers ≡ put st.peers key peer
  pub setup_keys : st'.setup_keys ≡ count_use st.setup_keys sk.id

merged-Merged :
    (old : Option Peer) (c : Call) (sk : SetupKey) (key ip : Text) (meta : PeerMeta) (peer : Peer)
    → merged sk (new_peer c sk key ip meta) old ≡ some peer
    → Merged old c sk key ip peer
unfolding merged new_peer preserved
merged-Merged none c sk key ip meta peer h =
    let e : new_peer c sk key ip meta ≡ peer = cc h in
    subst (Merged none c sk key ip) e (record {
      owner = refl;
      own_key = refl;
      own_ip = refl;
      no_exit_node = refl;
      continues = (refl, refl);
    })
merged-Merged (some old) c sk key ip meta peer h =
    elim (Bool-cases (old.account_id == sk.account_id)) [
      | inl y ↦
          let e : preserved (new_peer c sk key ip meta) old ≡ peer = ground arith in
          subst (Merged (some old) c sk key ip) e (record {
            owner = refl;
            own_key = refl;
            own_ip = refl;
            no_exit_node = refl;
            continues = record {
              id = refl;
              account = ground (arith, text_beq_iff old.account_id sk.account_id);
              created = refl;
              groups = refl;
              routes = refl;
              hostname = refl;
              dns_label = refl;
            };
          })
      | inr n ↦ ground arith
    ]

module _ (issue_token : Text → Text → Text → Text) where
  abbrev call : Server → Call → Text → Text → PeerMeta → Result LoginResponse × Server
  call = login issue_token

  finish_refusal :
      (s : Server) (sk : SetupKey) (p : Option Peer) (ip : Text) (e : Code)
      → (finish issue_token s sk p ip).0 ≡ Result.fail e
      → (finish issue_token s sk p ip).1.store ≡ s.store
  unfolding finish
  finish_refusal s sk none ip e h = refl
  finish_refusal s sk (some p) ip e h = cc h

  enrol_refusal :
      (s : Server) (c : Call) (sk : SetupKey) (key : Text) (meta : PeerMeta) (ip : Option Text)
      (e : Code)
      → (enrol issue_token s c sk key meta ip).0 ≡ Result.fail e
      → (enrol issue_token s c sk key meta ip).1.store ≡ s.store
  unfolding enrol
  enrol_refusal s c sk key meta none e h = refl
  enrol_refusal s c sk key meta (some ip) e h =
      finish_refusal s sk (merged sk (new_peer c sk key ip meta) (get_peer s.store key)) ip e h

  pub with_key_refusal :
      (s : Server) (c : Call) (key : Text) (meta : PeerMeta) (sk : Option SetupKey) (e : Code)
      → (with_key issue_token s c key meta sk).0 ≡ Result.fail e
      → (with_key issue_token s c key meta sk).1.store ≡ s.store
  unfolding with_key
  with_key_refusal s c key meta none e h = refl
  with_key_refusal s c key meta (some sk) e h = ground (
    arith,
    enrol_refusal (record s { ipam = (allocate s.ipam key).1 }) c sk key meta
        (allocate s.ipam key).0 e,
  )

  -- A login that is refused, for whatever reason, leaves the store as it was: no peer is enrolled or
  -- changed, and no setup key counts a use.
  pub login_refusal :
      (s : Server) (c : Call) (setup_key key : Text) (meta : PeerMeta) (e : Code)
      → (login issue_token s c setup_key key meta).0 ≡ Result.fail e
      → (login issue_token s c setup_key key meta).1.store ≡ s.store
  unfolding login
  login_refusal s c setup_key key meta e h =
      let s' = record s { login_limits = (allow s.login_limits c.source_ip c.now).1 } in
      ground (arith, with_key_refusal s' c key meta (get_setup_key s'.store setup_key c.now) e)

  finish_success :
      (s : Server) (sk : SetupKey) (o : Option Peer) (ip : Text) (r : LoginResponse)
      → (finish issue_token s sk o ip).0 ≡ Result.done r
      → (q : Peer) × ((o ≡ some q) × ((r.peer_id ≡ q.id) × (r.address ≡ ip ++ text "/32")))
  unfolding finish
  finish_success s sk none ip r h = cc h
  finish_success s sk (some q) ip r h = (q, (refl, (cc h, cc h)))

  enrol_success :
      (s : Server) (ipam : Ipam) (c : Call) (setup_key key : Text) (meta : PeerMeta) (sk : SetupKey)
      (r : LoginResponse) (o : Option Text)
      → get_setup_key s.store setup_key c.now ≡ some sk
      → sk.ephemeral && ltb 0 sk.used_count ≡ false
      → (allocate s.ipam key).0 ≡ o
      → (enrol issue_token (record s { ipam = ipam }) c sk key meta o).0 ≡ Result.done r
      → Enrolled s.store s.ipam
          (enrol issue_token (record s { ipam = ipam }) c sk key meta o).1.store
          c
          setup_key
          key
          r
  unfolding enrol finish save_peer increment_setup_key_usage
  enrol_success s ipam c setup_key key meta sk r none v u a h = cc h
  enrol_success s ipam c setup_key key meta sk r (some ip) v u a h =
      let old = get_peer s.store key in
      let m = merged sk (new_peer c sk key ip meta) old in
      let (q, (e, (id, addr))) = finish_success (record s { ipam = ipam }) sk m ip r h in
      let mm = merged-Merged old c sk key ip meta q e in
      rw e (record {
        sk = sk;
        valid = v;
        unused = u;
        ip = ip;
        leased = a;
        address = addr;
        peer = q;
        response = id;
        merged = mm;
        peers = ap (λ k. put s.store.peers k q) mm.own_key;
        setup_keys = refl;
      })

  with_key_success :
      (s : Server) (c : Call) (setup_key key : Text) (meta : PeerMeta) (o : Option SetupKey)
      (r : LoginResponse)
      → get_setup_key s.store setup_key c.now ≡ o
      → (with_key issue_token s c key meta o).0 ≡ Result.done r
      → Enrolled s.store s.ipam (with_key issue_token s c key meta o).1.store c setup_key key r
  unfolding with_key
  with_key_success s c setup_key key meta none r e h = cc h
  with_key_success s c setup_key key meta (some sk) r e h =
      elim (Bool-cases (sk.ephemeral && ltb 0 sk.used_count)) [
        | inl y ↦ ground arith
        | inr n ↦
            let (ip, ipam) = allocate s.ipam key in
            rw n (enrol_success s ipam c setup_key key meta sk r ip e n refl (ground arith))
      ]

  -- A login that succeeds used a setup key that is stored, unexpired and, if it is ephemeral, unused;
  -- it saved, under the public key and nowhere else, a record of the setup key's account with the
  -- leased address, and answers with that record's id and address. A record that stood there is of
  -- the same account, and keeps its id, time of creation, groups, routes, hostname and DNS label;
  -- a first enrolment has the new id and the groups of the setup key behind the default one. In
  -- both cases the saved record has no exit node, so that a re-enrolment drops one that was set.
  pub login-Enrolled :
      (s : Server) (c : Call) (setup_key key : Text) (meta : PeerMeta) (r : LoginResponse)
      → (login issue_token s c setup_key key meta).0 ≡ Result.done r
      → Enrolled s.store s.ipam (login issue_token s c setup_key key meta).1.store c setup_key key r
  unfolding login
  login-Enrolled s c setup_key key meta r h =
      let (ok, limits) = allow s.login_limits c.source_ip c.now in
      elim (Bool-cases (allow s.login_limits c.source_ip c.now).0) [
        | inl y ↦ elim (Bool-cases (setup_key == [] || key == [])) [
          | inl y2 ↦ ground arith
          | inr n ↦
              rw (y, n)
                (with_key_success (record s { login_limits = limits }) c setup_key key meta
                  (get_setup_key s.store setup_key c.now) r refl (ground arith))
        ]
        | inr n ↦ ground arith
      ]
