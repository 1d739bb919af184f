-- ===== src/Management/Domain.antt =====
-- management/internal/domain: the records of the control plane, and `ToDNSLabel`. Times are
-- nanoseconds since Go's zero time; ports and priorities are not negative here.
pub mod DnsLabel
use blinex.Prelude.{
  ℕ, Bool, true, false, ◌&&◌, ◌||◌, List, [], ◌∷◌, ◌++◌, map, leb, ◌==◌, nat_eq, if◌then◌else◌,
}
use blinex.Prelude.Text.{Text, text, text_eq, lower_rune, runes, trim}

pub record Account : Type 0 where
  pub id : Text
  pub name : Text
  pub created_at : ℕ

pub record SetupKey : Type 0 where
  pub id : Text
  pub account_id : Text
  pub key : Text
  pub name : Text
  pub ephemeral : Bool
  pub used_count : ℕ
  pub auto_groups : List Text
  pub created_at : ℕ
  pub expires_at : ℕ

abbrev pub default_group_name : Text
default_group_name = text "Default"

pub record Group : Type 0 where
  pub id : Text
  pub account_id : Text
  pub name : Text
  pub created_at : ℕ

pub record Peer : Type 0 where
  pub id : Text
  pub account_id : Text
  pub wg_pub_key : Text
  pub ip : Text
  pub local_ip : Text
  pub public_ip : Text
  pub country : Text
  pub hostname : Text
  pub os : Text
  pub kernel : Text
  pub version : Text
  pub dns_label : Text
  pub groups : List Text
  pub allowed_ips : List Text
  pub advertised_routes : List Text
  pub exit_node : Text
  pub connected : Bool
  pub last_seen : ℕ
  pub created_at : ℕ

pub record Rule : Type 0 where
  pub id : Text
  pub account_id : Text
  pub name : Text
  pub src : Text
  pub dst : Text
  pub protocol : Text
  pub port : ℕ
  pub action : Text
  pub enabled : Bool
  pub priority : ℕ
  pub created_at : ℕ

abbrev pub is_label_byte : ℕ → Bool
is_label_byte c = (leb b'a' c && leb c b'z') || (leb b'0' c && leb c b'9') || c == b'-'

abbrev pub is_dash : ℕ → Bool
is_dash c = c == b'-'

-- Each rune that is left is one byte.
sanitized : Text → Text
sanitized hostname =
    trim is_dash (map (λ c. if is_label_byte c then c else b'-') (map lower_rune (runes hostname)))

-- `ToDNSLabel`; `random` is the first 8 characters of a new UUID.
unfoldable pub to_dns_label : Text → Text → Text
unfolding sanitized
to_dns_label random hostname =
    let label = sanitized hostname in if label == [] then text "peer-" ++ random else label
