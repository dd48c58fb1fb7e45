-- ===== src/Types/Event.antt =====
-- src/types.rs: device states, event types and priorities, DHCP message types.
use netgraspd.Base.{
  ℕ, Bool, true, false, Option, none, some, String, string_eq, ◌==◌, if◌then◌else◌, eqb,
}

pub data DeviceState : Type 0 where
  online idle offline : DeviceState

unfoldable pub state_as_str : DeviceState → String
state_as_str online = "online"
state_as_str idle = "idle"
state_as_str offline = "offline"

unfoldable pub state_from_db : String → DeviceState
state_from_db s = if s == "online" then online else if s == "idle" then idle else offline

abbrev pub is_offline : DeviceState → Bool
is_offline offline = true
is_offline _ = false

pub data EventPriority : Type 0 where
  normal high urgent : EventPriority

unfoldable pub priority_as_str : EventPriority → String
priority_as_str normal = "normal"
priority_as_str high = "high"
priority_as_str urgent = "urgent"

pub data EventType : Type 0 where
  new_device returned ip_changed went_offline name_updated : EventType
  arp_scan arp_spoof rogue_dhcp identity_change ip_conflict gratuitous_arp : EventType
  device_location_changed person_arrived person_departed person_location_changed : EventType

unfoldable pub event_as_str : EventType → String
event_as_str new_device = "new_device"
event_as_str returned = "returned"
event_as_str ip_changed = "ip_changed"
event_as_str went_offline = "went_offline"
event_as_str name_updated = "name_updated"
event_as_str arp_scan = "arp_scan"
event_as_str arp_spoof = "arp_spoof"
event_as_str rogue_dhcp = "rogue_dhcp"
event_as_str identity_change = "identity_change"
event_as_str ip_conflict = "ip_conflict"
event_as_str gratuitous_arp = "gratuitous_arp"
event_as_str device_location_changed = "device_location_changed"
event_as_str person_arrived = "person_arrived"
event_as_str person_departed = "person_departed"
event_as_str person_location_changed = "person_location_changed"

unfoldable pub is_person : EventType → Bool
is_person person_arrived = true
is_person person_departed = true
is_person person_location_changed = true
is_person _ = false

unfoldable pub is_security : EventType → Bool
is_security arp_scan = true
is_security arp_spoof = true
is_security rogue_dhcp = true
is_security identity_change = true
is_security ip_conflict = true
is_security gratuitous_arp = true
is_security _ = false

pub data DhcpMessageType : Type 0 where
  discover offer request decline ack nak release inform : DhcpMessageType

unfoldable pub dhcp_from_code : ℕ → Option DhcpMessageType
dhcp_from_code code =
    if eqb code 1
    then some discover
    else if eqb code 2
    then some offer
    else if eqb code 3
    then some request
    else if eqb code 4
    then some decline
    else if eqb code 5
    then some ack
    else if eqb code 6
    then some nak
    else if eqb code 7
    then some release
    else if eqb code 8
    then some inform
    else none

unfoldable pub is_server_message : DhcpMessageType → Bool
is_server_message offer = true
is_server_message ack = true
is_server_message nak = true
is_server_message _ = false

unfoldable pub dhcp_as_str : DhcpMessageType → String
dhcp_as_str discover = "discover"
dhcp_as_str offer = "offer"
dhcp_as_str request = "request"
dhcp_as_str decline = "decline"
dhcp_as_str ack = "ack"
dhcp_as_str nak = "nak"
dhcp_as_str release = "release"
dhcp_as_str inform = "inform"
