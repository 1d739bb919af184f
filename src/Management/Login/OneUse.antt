-- ===== src/Management/Login/OneUse.antt =====
-- management/internal/grpcserver/server.go, `Login`: an ephemeral setup key enrols one peer.
use blinex.Prelude.{
  ℕ, subst, sym, ap, ◌∙◌, ◌+◌, ◌≤◌, ◌≡◌, ◌≢◌, refl, inl, inr, true, false, ◌&&◌, none, some, Option,
  List, [], ◌∷◌, arith, ltb, ◌==◌, Bool-cases, Option-cases,
}
use blinex.Prelude.Text.{Text, text_eq, text_beq_iff}
use blinex.Prelude.Dict.{Dict, get, Distinct, beq_refl}
use blinex.Management.Domain.{SetupKey, Peer}
use blinex.Management.Ipam.{allocate}
use blinex.Management.Store.{
  Store, get_setup_key, get_peer, save_peer, increment_setup_key_usage, count_use,
}
use blinex.Management.Login.{
  Server, PeerMeta, Call, Result, LoginResponse, new_peer, merged, finish, enrol, with_key,
}
use blinex.Management.Login.Enrolment.{with_key_refusal}

-- The map has no other key with the id of the one that stands under `k`.
abbrev pub OwnId : Dict Text SetupKey → Text → Text → Type 0
OwnId m k id = (j : Text) (sk : SetupKey) → get m j ≡ some sk → sk.id ≡ id → j ≡ k

-- The setup key is ephemeral and used, if it is there at all.
Spent : Dict Text SetupKey → Text → Type 0
Spent m k = (sk : SetupKey) → get m k ≡ some sk → sk.ephemeral && ltb 0 sk.used_count ≡ true

-- A later record of a setup key.
record Later (old new : SetupKey) : Type 0 where
  ephemeral : new.ephemeral ≡ old.ephemeral
  used : old.used_count ≤ new.used_count

get-count_use :
    (m : Dict Text SetupKey) (id k : Text) (new : SetupKey)
    → get (count_use m id) k ≡ some new
    → (old : SetupKey) × ((get m k ≡ some old) × Later old new)
unfolding get count_use
get-count_use [] id k new h = cc h
get-count_use ((j, v) ∷ m) id k new h = elim (Bool-cases (v.id == id)) [
  | inl y ↦ elim (Bool-cases (j == k)) [
    | inl z ↦ (v, (rw z refl, record { ephemeral = ground arith; used = ground arith }))
    | inr n ↦ (new, (ground arith, record { ephemeral = refl; used = omega arith }))
  ]
  | inr n ↦ elim (Bool-cases (j == k)) [
    | inl z ↦ (new, (ground arith, record { ephemeral = refl; used = omega arith }))
    | inr o ↦ let (old, (g, l)) = get-count_use m id k new (ground arith) in (old, (rw o g, l))
  ]
]

OwnId-tail :
    (m : Dict Text SetupKey) (j k id : Text) (v : SetupKey)
    → get m j ≡ none
    → OwnId ((j, v) ∷ m) k id
    → OwnId m k id
OwnId-tail m j k id v d o i sk g e = o i sk (unfold get in ground (arith, text_beq_iff j i, d)) e

OwnId-head :
    (m : Dict Text SetupKey) (j k id : Text) (v : SetupKey)
    → OwnId ((j, v) ∷ m) k id
    → v.id ≡ id
    → j ≡ k
OwnId-head m j k id v o e = o j v (unfold get in rw (beq_refl j) refl) e

count_use_self :
    (m : Dict Text SetupKey) (k : Text) (sk : SetupKey)
    → Distinct m
    → OwnId m k sk.id
    → get m k ≡ some sk
    → get (count_use m sk.id) k ≡ some (record sk { used_count = sk.used_count + 1 })
unfolding get count_use
count_use_self [] k sk d o h = cc h
count_use_self ((j, v) ∷ m) k sk d o h = elim (Bool-cases (j == k)) [
  | inl z ↦
      let e : some v ≡ some sk = ground arith in
      let f : v ≡ sk = cc e in ground (arith, f, text_beq_iff v.id sk.id)
  | inr n ↦
      let rest = count_use_self m k sk d.1 (OwnId-tail m j k sk.id v d.0 o) (ground arith) in
      ground (arith, rest, text_beq_iff v.id sk.id, text_beq_iff j k, OwnId-head m j k sk.id v o)
]

stored :
    (st : Store) (key : Text) (now : ℕ) (sk : SetupKey)
    → get_setup_key st key now ≡ some sk
    → get st.setup_keys key ≡ some sk
unfolding get_setup_key
stored st key now sk h = elim (Option-cases (get st.setup_keys key)) [
  | inl e ↦ ground arith
  | inr (v, e) ↦ ground arith
]

used_up :
    (m : Dict Text SetupKey) (k : Text) (sk : SetupKey)
    → Distinct m
    → OwnId m k sk.id
    → get m k ≡ some sk
    → sk.ephemeral ≡ true
    → Spent (count_use m sk.id) k
unfolding Spent
used_up m k sk d o g eph new h =
    let e : some new ≡ some (record sk { used_count = sk.used_count + 1 }) =
      cc (h, count_use_self m k sk d o g) in
    let f : new ≡ record sk { used_count = sk.used_count + 1 } = cc e in rw f (ground arith)

-- What is left of a login once it has read its setup key. `Login` holds no lock from there on, so
-- that `read` may be a record that other logins have counted up since.
pub record Commit : Type 0 where
  pub call : Call
  pub key : Text
  pub meta : PeerMeta
  pub read : SetupKey

module _ (issue_token : Text → Text → Text → Text) where
  finish_keys :
      (s : Server) (sk : SetupKey) (o : Option Peer) (ip : Text) (r : LoginResponse)
      → (finish issue_token s sk o ip).0 ≡ Result.done r
      → (finish issue_token s sk o ip).1.store.setup_keys ≡ count_use s.store.setup_keys sk.id
  unfolding finish save_peer increment_setup_key_usage
  finish_keys s sk none ip r h = cc h
  finish_keys s sk (some p) ip r h = refl

  enrol_keys :
      (s : Server) (c : Call) (sk : SetupKey) (key : Text) (meta : PeerMeta) (ip : Option Text)
      (r : LoginResponse)
      → (enrol issue_token s c sk key meta ip).0 ≡ Result.done r
      → (enrol issue_token s c sk key meta ip).1.store.setup_keys
        ≡ count_use s.store.setup_keys sk.id
  unfolding enrol
  enrol_keys s c sk key meta none r h = cc h
  enrol_keys s c sk key meta (some ip) r h =
      finish_keys s sk (merged sk (new_peer c sk key ip meta) (get_peer s.store key)) ip r h

  -- A login that succeeds with the record that it has read counts that record's key up.
  with_key_keys :
      (s : Server) (c : Call) (key : Text) (meta : PeerMeta) (sk : SetupKey) (r : LoginResponse)
      → (with_key issue_token s c key meta (some sk)).0 ≡ Result.done r
      → (sk.ephemeral && ltb 0 sk.used_count ≡ false)
        × ((with_key issue_token s c key meta (some sk)).1.store.setup_keys
            ≡ count_use s.store.setup_keys sk.id)
  unfolding with_key
  with_key_keys s c key meta sk r h = elim (Bool-cases (sk.ephemeral && ltb 0 sk.used_count)) [
    | inl y ↦ ground arith
    | inr n ↦
        let (ip, ipam) = allocate s.ipam key in
        (n, rw n (enrol_keys (record s { ipam = ipam }) c sk key meta ip r (ground arith)))
  ]

  abbrev commit : Server → Commit → Result LoginResponse × Server
  commit s q = with_key issue_token s q.call q.key q.meta (some q.read)

  unfoldable pub run_commits : Server → List Commit → Server
  run_commits s [] = s
  run_commits s (q ∷ qs) =
      run_commits (with_key issue_token s q.call q.key q.meta (some q.read)).1 qs

  count-Spent : (m : Dict Text SetupKey) (id k : Text) → Spent m k → Spent (count_use m id) k
  unfolding Spent
  count-Spent m id k p new h =
      let (old, (g, l)) = get-count_use m id k new h in ground (arith, p old g, l.ephemeral, l.used)

  commit-Spent :
      (s : Server) (q : Commit) (k : Text) (o : Result LoginResponse)
      → (commit s q).0 ≡ o
      → Spent s.store.setup_keys k
      → Spent (commit s q).1.store.setup_keys k
  commit-Spent s q k (Result.fail c) e p =
      rw (with_key_refusal issue_token s q.call q.key q.meta (some q.read) c e) p
  commit-Spent s q k (Result.done r) e p =
      rw ((with_key_keys s q.call q.key q.meta q.read r e).1)
        (count-Spent s.store.setup_keys q.read.id k p)

  run-Spent :
      (s : Server) (qs : List Commit) (k : Text)
      → Spent s.store.setup_keys k
      → Spent (run_commits s qs).store.setup_keys k
  unfolding run_commits
  run-Spent s [] k p = p
  run-Spent s (q ∷ qs) k p =
      run-Spent (commit s q).1 qs k (commit-Spent s q k (commit s q).0 refl p)

  Spent-refused :
      (w later : Server) (k : Text) (c : Call) (key : Text) (meta : PeerMeta) (r : LoginResponse)
      (o : Option SetupKey)
      → get_setup_key w.store k c.now ≡ o
      → Spent w.store.setup_keys k
      → (with_key issue_token later c key meta o).0 ≢ Result.done r
  Spent-refused w later k c key meta r none e p h = unfold with_key in cc h
  Spent-refused w later k c key meta r (some sk) e p h =
      let (unused, _) = with_key_keys later c key meta sk r h in
      let used : sk.ephemeral && ltb 0 sk.used_count ≡ true =
        unfold Spent in p sk (stored w.store k c.now sk e) in
      cc (unused, used)

  -- Once a login with an ephemeral setup key has succeeded, no login that reads that key from then on
  -- succeeds, for the same peer or another: whatever logins have gone on in between with records of
  -- setup keys that they had read before, whatever the server is by the time the later login goes on
  -- from its read, and also if the first had itself read an older record of the key. It is assumed
  -- that no other setup key in the store has its id. Of a login that has read the key before the
  -- first one counted it up, nothing is said: it enrols too.
  pub ephemeral_used_once :
      (s : Server) (setup_key : Text) (q : Commit) (r : LoginResponse) (sk : SetupKey)
      (between : List Commit) (later : Server) (c : Call) (key : Text) (meta : PeerMeta)
      (r' : LoginResponse)
      → Distinct s.store.setup_keys
      → OwnId s.store.setup_keys setup_key sk.id
      → get s.store.setup_keys setup_key ≡ some sk
      → sk.ephemeral ≡ true
      → q.read.id ≡ sk.id
      → (with_key issue_token s q.call q.key q.meta (some q.read)).0 ≡ Result.done r
      → let after =
          run_commits (with_key issue_token s q.call q.key q.meta (some q.read)).1 between in
        (with_key issue_token later c key meta (get_setup_key after.store setup_key c.now)).0
        ≢ Result.done r'
  ephemeral_used_once s setup_key q r sk between later c key meta r' d o g eph same h =
      let keys : (commit s q).1.store.setup_keys ≡ count_use s.store.setup_keys sk.id =
        (with_key_keys s q.call q.key q.meta q.read r h).1
        ∙ ap (count_use s.store.setup_keys) same in
      let spent =
        subst (λ m. Spent m setup_key) (sym keys)
          (used_up s.store.setup_keys setup_key sk d o g eph) in
      let w = run_commits (commit s q).1 between in
      Spent-refused w later setup_key c key meta r' (get_setup_key w.store setup_key c.now) refl
        (run-Spent (commit s q).1 between setup_key spent)
