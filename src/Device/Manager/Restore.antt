-- ===== src/Device/Manager/Restore.antt =====
-- src/device/mod.rs: the table made again from the database at a start, `Manager::restore`.
use netgraspd.Base.{
  ℕ, Bool, true, false, not, List, [], ◌∷◌, Option, none, some, Text, list_eq, nat_eq, option_eq,
}
use netgraspd.Base.Assoc.{lookup, insert, remove}
use netgraspd.Config.Timeouts.{unwrap_or}
use netgraspd.Types.{MacAddr, mac_eq, IpAddr, ip_eq, Signal}
use netgraspd.Types.Event.{DeviceState, is_offline}
use netgraspd.Identity.Scorer.{resolve}
use netgraspd.Device.Entry.{Env, Entry}
use netgraspd.Device.Manager.{Manager}

-- db/queries.rs: a stored device, as far as the table is restored from it.
pub record DeviceRecord : Type 0 where
  pub id : ℕ
  pub mac : MacAddr
  pub display_name : Option Text
  pub device_type : Option Text
  pub device_type_confidence : Option ℕ
  pub os_family : Option Text
  pub state : DeviceState
  pub last_ip : Option Text
  pub last_ipv6 : Option Text
  pub last_interface : Option Text
  pub first_seen_at : ℕ
  pub last_seen_at : ℕ
  pub baseline : Bool
  pub current_ap : Option Text
  pub current_location : Option Text
  pub notify : Bool

filter_placed : Bool → Option Text → Option Text
filter_placed true o = o
filter_placed false o = none

-- The entry that `Manager::restore` makes of a record and its stored signals.
unfoldable pub restored_entry : DeviceRecord → List Signal → Entry
unfolding filter_placed
restored_entry r stored = record {
  mac = r.mac;
  state = r.state;
  first_seen_at = r.first_seen_at;
  last_seen_at = r.last_seen_at;
  last_ip = r.last_ip;
  last_ipv6 = r.last_ipv6;
  last_interface = r.last_interface;
  signals = stored;
  identity = resolve (record { mac = r.mac; signals = stored; device_type = r.device_type });
  pending_identity = none;
  classification = record {
    device_type = r.device_type;
    os_family = r.os_family;
    confidence = unwrap_or r.device_type_confidence 0;
    reason = none;
  };
  display_name = r.display_name;
  current_ap = filter_placed (not (is_offline r.state)) r.current_ap;
  current_location = filter_placed (not (is_offline r.state)) r.current_location;
  baseline = r.baseline;
  notify = r.notify;
  offline_transitions = 0;
  observations_since_flush = 0;
  dirty = false;
}

module _ (env : Env) where
  index_text : Option Text → MacAddr → List (IpAddr × MacAddr) → List (IpAddr × MacAddr)
  index_text none mac addresses = addresses
  index_text (some t) mac addresses = elim (env.parse_ip t) [
    | none ↦ addresses
    | some a ↦ insert a mac addresses
  ]

  -- `Manager::restore`: `stored` is the map of stored signals, from which each record takes its
  -- own away.
  unfoldable pub restore : Manager → List DeviceRecord → List (ℕ × List Signal) → Manager
  unfolding index_text
  restore m [] stored = m
  restore m (r ∷ rest) stored =
      restore
        (record m {
          addresses = index_text r.last_ipv6 r.mac (index_text r.last_ip r.mac m.addresses);
          devices = insert r.mac (restored_entry r (unwrap_or (lookup r.id stored) [])) m.devices;
        })
        rest (remove r.id stored)
