-- ===== src/Device/Manager/Feeds.antt =====
-- src/device/mod.rs: what reaches the table from elsewhere than the wire: the database, the
-- enrichers, the people registry and the analyzers. A JSON value of theirs is its text.
use netgraspd.Base.{
  ℕ, Bool, true, false, List, [], ◌∷◌, ◌++◌, Option, none, some, Text, ◌==◌, list_eq, nat_eq,
  option_eq, bool_eq, if◌then◌else◌, ◌>>=◌,
}
use netgraspd.Base.Assoc.{lookup, insert}
use netgraspd.Config.Timeouts.{unwrap_or}
use netgraspd.Location.{Place, Movement, movement_as_str}
use netgraspd.People.{PersonEvent}
use netgraspd.Types.{MacAddr, mac_eq, mac_text, ip_eq, Signal, vendor}
use netgraspd.Types.Event.{
  EventType, EventPriority, normal, priority_as_str, device_location_changed,
}
use netgraspd.Device.Effect.{placed, foreign, display, Effect, event, location_changed}
use netgraspd.Device.Entry.{Env, Entry, snapshot, best}
use netgraspd.Device.Manager.{Manager, entry_event}

-- db/queries.rs: the columns that a user owns.
pub record UserSettings : Type 0 where
  pub mac : MacAddr
  pub display_name : Option Text
  pub notes : Option Text
  pub hidden : Bool
  pub notify : Bool
  pub owner_item_id : Option Text

pub data Column : Type 0 where
  display_name notify : Column

pub record UserChange : Type 0 where
  pub mac : MacAddr
  pub column : Column
  pub from : Text
  pub to : Text

bool_text : Bool → Text
bool_text true = b't' ∷ b'r' ∷ b'u' ∷ b'e' ∷ []
bool_text false = b'f' ∷ b'a' ∷ b'l' ∷ b's' ∷ b'e' ∷ []

-- The two entries of `USER_OWNED_COLUMNS`.
unfoldable pub apply_display_name : Entry → UserSettings → Entry × List UserChange
apply_display_name e s = if e.display_name == s.display_name then (e, []) else (
  record e { display_name = s.display_name },
  record {
    mac = s.mac;
    column = display_name;
    from = unwrap_or e.display_name [];
    to = unwrap_or s.display_name [];
  }
      ∷ [],
)

unfoldable pub apply_notify : Entry → UserSettings → Entry × List UserChange
unfolding bool_text
apply_notify e s = if e.notify == s.notify then (e, []) else (
  record e { notify = s.notify },
  record { mac = s.mac; column = notify; from = bool_text e.notify; to = bool_text s.notify } ∷ [],
)

unfoldable pub apply_settings : Entry → UserSettings → Entry × List UserChange
apply_settings e s =
    let (e1, named) = apply_display_name e s in
    let (e2, muted) = apply_notify e1 s in (e2, named ++ muted)

unfoldable pub apply_user_settings : Manager → List UserSettings → Manager × List UserChange
apply_user_settings m [] = (m, [])
apply_user_settings m (s ∷ rest) =
    let (m1, changes) : Manager × List UserChange = elim (lookup s.mac m.devices) [
      | none ↦ (m, [])
      | some e ↦
          let (e', changes) = apply_settings e s in
          (record m { devices = insert s.mac e' m.devices }, changes)
    ] in
    let (m2, later) = apply_user_settings m1 rest in (m2, changes ++ later)

unfoldable pub current_ap : Manager → MacAddr → Option Text
current_ap m mac = lookup mac m.devices >>= λ e. e.current_ap

move_entry : Bool → MacAddr → Place → Movement → Option Text → ℕ → Entry → Entry × List Effect
move_entry learning mac place movement telemetry at e =
    let e' = record e {
      current_ap = some place.ap_name;
      current_location = some place.location;
      dirty = true;
    } in
    (
      e',
      location_changed mac (some place.ap_name) place.location at
          ∷ event
              (record (entry_event device_location_changed e' learning e'.last_ip e'.last_interface
                at
                (placed place.ap_name place.location e.current_ap e.current_location
                  (movement_as_str movement) place.edge telemetry)) { mac = mac })
          ∷ [],
    )

-- `Manager::set_location`, on the entry of the device.
unfoldable pub place_entry :
    Bool → MacAddr → Place → Movement → Option Text → ℕ → Entry → Entry × List Effect
unfolding move_entry
place_entry learning mac place movement telemetry at e =
    if e.current_ap == some place.ap_name
    then (e, [])
    else move_entry learning mac place movement telemetry at e

unfoldable pub set_location :
    Manager → MacAddr → Place → Movement → Option Text → ℕ → Manager × List Effect
set_location m mac place movement telemetry at = elim (lookup mac m.devices) [
  | none ↦ (m, [])
  | some e ↦
      let (e', effects) = place_entry m.learning mac place movement telemetry at e in
      (record m { devices = insert mac e' m.devices }, effects)
]

abbrev baseline_of : Option Entry → Bool
baseline_of none = false
baseline_of (some e) = e.baseline

unfoldable pub person_event : Manager → PersonEvent → List Effect
person_event m p =
    let entry = lookup p.mac m.devices in
    event (record {
      event_type = p.event_type;
      mac = p.mac;
      display_name = p.name;
      vendor = entry >>= λ e. best e vendor;
      ip = entry >>= λ e. e.last_ip;
      interface = entry >>= λ e. e.last_interface;
      at = p.at;
      baseline = baseline_of entry;
      during_learning = false;
      notify = p.notify;
      priority = normal;
      details = foreign p.details none;
    })
    ∷ []

-- analyze/mod.rs: an analyzer's finding.
pub record SecurityAlert : Type 0 where
  pub event_type : EventType
  pub mac : MacAddr
  pub ip : Option Text
  pub interface : Option Text
  pub at : ℕ
  pub priority : EventPriority
  pub details : Text

module _ (env : Env) where
  -- `" device"`
  named_vendor : Option Signal → MacAddr → Text
  named_vendor none mac = mac_text mac
  named_vendor (some s) mac = s.value ++ (32 ∷ b'd' ∷ b'e' ∷ b'v' ∷ b'i' ∷ b'c' ∷ b'e' ∷ [])

  unfoldable pub security_event : Manager → SecurityAlert → List Effect
  unfolding named_vendor
  security_event m a =
      let entry = lookup a.mac m.devices in
      event (record {
        event_type = a.event_type;
        mac = a.mac;
        display_name = elim entry [
          | none ↦ named_vendor (env.vendor_signal a.mac) a.mac
          | some e ↦ display (snapshot e)
        ];
        vendor = entry >>= λ e. best e vendor;
        ip = a.ip;
        interface = a.interface;
        at = a.at;
        baseline = baseline_of entry;
        during_learning = false;
        notify = true;
        priority = a.priority;
        details = foreign a.details (some (priority_as_str a.priority));
      })
      ∷ []
