-- ===== src/Analyze/RogueDhcp.antt =====
-- src/analyze/rogue_dhcp.rs: a DHCP server that is not the one the network has. `render` is the
-- JSON text of an alert's details, which joins the expected servers, and `show` the standard
-- library's text of an address.
pub mod Servers
use netgraspd.Base.{
  ℕ, ◌*◌, Bool, true, false, ◌&&◌, not, Option, none, some, List, [], ◌∷◌, String, Text,
  if◌then◌else◌, ◌==◌, option_eq, ◌>>=◌, contains, is_none,
}
use netgraspd.Base.Assoc.{lookup}
use netgraspd.Time.{second}
use netgraspd.Types.Mac.{MacAddr, mac_eq, parse_mac}
use netgraspd.Types.Net.{IpAddr}
use netgraspd.Types.Evidence.{trim, is_empty}
use netgraspd.Types.Event.{rogue_dhcp, is_server_message, dhcp_as_str}
use netgraspd.Types.Observed.{Observation, DhcpDetail, dhcp_detail}
use netgraspd.Config.Security.{parse_macs}
use netgraspd.Device.Manager.Feeds.{SecurityAlert}
use netgraspd.Analyze.Window.{note_value}
use netgraspd.Analyze.Detector.{Context, new_alert, with_ip_if, with_interface, cooled_down}

abbrev pub rogue_cooldown : ℕ
rogue_cooldown = 300 * second

abbrev pub max_rogues : ℕ
max_rogues = 32

pub record RogueDhcp : Type 0 where
  pub configured : List MacAddr
  pub learned : Option MacAddr
  pub alerted : List (MacAddr × ℕ)

-- `RogueDhcp::new`, of the configured servers.
unfoldable pub new_rogue : List Text → RogueDhcp
new_rogue known_servers = record {
  configured = parse_macs known_servers;
  learned = none;
  alerted = [];
}

unfoldable pub is_legitimate : RogueDhcp → MacAddr → Bool
is_legitimate a m = if is_empty a.configured then a.learned == some m else contains a.configured m

-- `record_alert`: in place where the device is held, else last, and the first goes where there is
-- no room.
unfoldable pub record_alert : ℕ → MacAddr → ℕ → List (MacAddr × ℕ) → List (MacAddr × ℕ)
record_alert most m at alerted = note_value m at most alerted

pub record RogueDetails : Type 0 where
  pub message_type : String
  pub expected_server : List MacAddr
  pub is_learned : Bool
  pub offered_ip : Option ℕ
  pub offered_router : Option ℕ
  pub client_mac : Option MacAddr

abbrev pub or_none : Option MacAddr → List MacAddr
or_none none = []
or_none (some m) = m ∷ []

module _ (show : IpAddr → Text) (render : RogueDetails → Text) where
  unfoldable pub rogue_alert : Context → Observation → DhcpDetail → RogueDhcp → SecurityAlert
  rogue_alert c o d a = with_ip_if (o.ip >>= λ ip. some (show ip)) (
      with_interface
        (new_alert rogue_dhcp o.mac o.observed_at c.priority (
          render (record {
            message_type = dhcp_as_str d.message_type;
            expected_server = if is_empty a.configured then or_none a.learned else a.configured;
            is_learned = is_empty a.configured;
            offered_ip = d.assigned_ip;
            offered_router = d.router;
            client_mac = d.client_mac;
          })))
        o.interface)

  unfoldable pub hear_server :
      Context → Observation → DhcpDetail → RogueDhcp → RogueDhcp × List SecurityAlert
  hear_server c o d a =
      if is_legitimate a o.mac
      then (a, [])
      else if is_empty a.configured && is_none a.learned
      then (record a { learned = some o.mac }, [])
      else if not (cooled_down (lookup o.mac a.alerted) o.observed_at rogue_cooldown)
      then (a, [])
      else (
        record a { alerted = record_alert max_rogues o.mac o.observed_at a.alerted },
        rogue_alert c o d a ∷ [],
      )

  rogue_detail :
      Context → Observation → Option DhcpDetail → RogueDhcp → RogueDhcp × List SecurityAlert
  unfolding hear_server
  rogue_detail c o none a = (a, [])
  rogue_detail c o (some d) a =
      if is_server_message d.message_type then hear_server c o d a else (a, [])

  -- `RogueDhcp::analyze`, on an observation.
  unfoldable pub rogue : Context → Observation → RogueDhcp → RogueDhcp × List SecurityAlert
  unfolding rogue_detail
  rogue c o a = rogue_detail c o (dhcp_detail o) a
