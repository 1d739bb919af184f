-- ===== src/Tests/Peers.antt =====
-- A list of peers in which one is new, one has moved and one is gone.
use blinex.Prelude.{◌≡◌, refl, some, List, [], ◌∷◌}
use blinex.Prelude.Text.{Text, text, text_eq, text_beq}
use blinex.Prelude.Dict.{Distinct, get, put, remove}
use blinex.Management.Sync.{PeerInfo}
use blinex.Peers.{Manager, diff}

abbrev peer : Text → Text → PeerInfo
peer key ip = record {
  id = key;
  wg_pub_key = key;
  ip = ip;
  hostname = key;
  os = [];
  allowed_ips = ip ∷ [];
  dns_label = key;
  local_ip = [];
  public_ip = [];
  country = [];
}

abbrev known : Manager
known = record {
  peers =
      (text "a", peer (text "a") (text "100.64.0.1"))
      ∷ (text "b", peer (text "b") (text "100.64.0.2"))
      ∷ [];
}

abbrev incoming : List PeerInfo
incoming = peer (text "b") (text "100.64.0.9") ∷ peer (text "c") (text "100.64.0.3") ∷ []

moved : get (diff known incoming).1.peers (text "b") ≡ some (peer (text "b") (text "100.64.0.9"))
unfolding diff get put remove text_beq
moved = refl

known-Distinct : Distinct known.peers
unfolding get text_beq
known-Distinct = (refl, (refl, tt))
