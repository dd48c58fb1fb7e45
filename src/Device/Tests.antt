-- ===== src/Device/Tests.antt =====
-- The state machine on small tables: a network of two hosts, one of which speaks for the other.
use netgraspd.Base.{
  ℕ, ◌+◌, ◌-◌, ◌<◌, ◌≡◌, refl, true, false, List, [], ◌∷◌, ◌++◌, Option, none, some, Text, any, eqb,
  ◌==◌, if◌then◌else◌, arith, list_eq, nat_eq, option_eq,
}
use netgraspd.Base.Assoc.{lookup}
use netgraspd.Types.{
  mac_beq, MacAddr, mac_eq, IpAddr, v4, v6, Signal, user_assigned, mdns_name, mac, signal_eq,
  is_blank, NameClaim, Observation,
}
use netgraspd.Types.Event.{online, offline}
use netgraspd.Types.Observed.{reply}
use netgraspd.Location.{Place, arriving}
use netgraspd.Config.Timeouts.{StateConfig, idle_timeout_for, offline_timeout_for}
use netgraspd.Identity.Scorer.{Identity, named, settle_window}
use netgraspd.Identity.Classification.{unclassified}
use netgraspd.Device.Entry.{Env, Entry, adopt, record_list}
use netgraspd.Device.Entry.Settle.{rescores, rescores_alternating, rescores_settle}
use netgraspd.Device.Entry.Settle.History.{after_scores, Earned, adopt-Earned}
use netgraspd.Device.Manager.{Manager, new_manager, attribute, sender_addresses, speaks_for_others}
use netgraspd.Device.Manager.Sweep.{sweep, take_dirty}
use netgraspd.Device.Manager.Feeds.{UserSettings, set_location}
use netgraspd.Device.Machine.{Input, observed, swept, run}
use netgraspd.Device.Sessions.{closed, replay, session_in}
use netgraspd.Device.Sessions.Table.{IsTable}
use netgraspd.Device.Sessions.Runs.{run_sessions}
use netgraspd.Device.Growth.{Grows}
use netgraspd.Device.Growth.Table.{run-Grows}
use netgraspd.Device.Sweeping.{patience, sweep-patience, sweep-set_location_offline}
use netgraspd.Device.Attribution.{vouches, own_claim, attribute_vouched, attribute_proxy}
use netgraspd.Device.Machine.{visited, alerted}
use netgraspd.Device.Learning.Notices.{notices, due}
use netgraspd.Device.Manager.Feeds.{SecurityAlert}
use netgraspd.Types.Event.{arp_spoof, normal, person_arrived}
use netgraspd.Device.Learning.{run_quiet}

abbrev show_address : IpAddr → Text
show_address (v4 a) = 4 ∷ (a ∷ [])
show_address (v6 a) = 6 ∷ (a ∷ [])

abbrev read_address : Text → Option IpAddr
read_address (t ∷ (a ∷ [])) = if eqb t 4 then some (v4 a) else some (v6 a)
read_address _ = none

read-show : (a : IpAddr) → read_address (show_address a) ≡ some a
read-show (v4 a) = refl
read-show (v6 a) = refl

abbrev plain_env : Env
plain_env = record {
  classify = λ i. unclassified;
  vendor_signal = λ m. none;
  show_ip = show_address;
  parse_ip = read_address;
  parse-show = read-show;
}

abbrev host : MacAddr
host = record { o0 = 2; o1 = 0; o2 = 0; o3 = 0; o4 = 0; o5 = 1 }

abbrev proxy_host : MacAddr
proxy_host = record { o0 = 2; o1 = 0; o2 = 0; o3 = 0; o4 = 0; o5 = 2 }

abbrev minutes : StateConfig
minutes = record {
  idle_timeout = 10;
  offline_timeout = 60;
  flush_interval = 5;
  sweep_interval = 5;
  reconcile_interval = 100;
  device_type_overrides = [];
}

abbrev name_claim : Signal
name_claim = record { kind = mdns_name; value = b'a' ∷ [] }

abbrev known_entry : Entry
known_entry = record {
  mac = host;
  state = online;
  first_seen_at = 0;
  last_seen_at = 100;
  last_ip = some (4 ∷ (5 ∷ []));
  last_ipv6 = none;
  last_interface = none;
  signals = [];
  identity = named (b'h' ∷ []) mdns_name;
  pending_identity = none;
  classification = unclassified;
  display_name = none;
  current_ap = none;
  current_location = none;
  baseline = false;
  notify = true;
  offline_transitions = 0;
  observations_since_flush = 0;
  dirty = true;
}

-- The one known device holds address 5.
abbrev one_device : Manager
one_device = record {
  devices = (host, known_entry) ∷ [];
  addresses = (v4 5, host) ∷ [];
  config = minutes;
  learning = false;
  reclassifications = [];
  unattributed_claims = 0;
}

-- Another host answers for the known one, and for itself.
abbrev proxied_reply : Observation
proxied_reply = record {
  mac = proxy_host;
  ip = some (v4 9);
  interface = [];
  source = "mdns";
  kind = reply;
  signals = [];
  claims =
      record { signal = name_claim; addresses = v4 5 ∷ [] }
      ∷ (record { signal = record { kind = mdns_name; value = b'p' ∷ [] }; addresses = v4 9 ∷ [] }
          ∷ []);
  detail = none;
  observed_at = 105;
}

abbrev two_inputs : List Input
two_inputs = observed proxied_reply ∷ (swept 500 ∷ [])

run_sessions_example :
    let r = run plain_env (new_manager minutes false) two_inputs in
    IsTable r.0.devices × (replay proxy_host closed r.1 ≡ some (session_in r.0.devices proxy_host))
run_sessions_example = run_sessions plain_env minutes false two_inputs proxy_host

run-Grows_example :
    (f : Entry) × (lookup host (run plain_env one_device two_inputs).0.devices ≡ some f)
    × Grows known_entry f
unfolding lookup mac_beq
run-Grows_example = run-Grows plain_env one_device two_inputs host known_entry refl

abbrev poisoning : SecurityAlert
poisoning = record {
  event_type = arp_spoof;
  mac = proxy_host;
  ip = none;
  interface = none;
  at = 150;
  priority = normal;
  details = [];
}

-- A person who has notifications off arrives, and a device is attacked from.
abbrev warm_up : List Input
warm_up =
    visited (record {
      event_type = person_arrived;
      item_id = [];
      name = [];
      mac = host;
      at = 120;
      notify = false;
      details = [];
    })
    ∷ (alerted poisoning ∷ two_inputs)

run_quiet_example : notices (run plain_env (new_manager minutes true) warm_up).1 ≡ due warm_up
unfolding new_manager
run_quiet_example = run_quiet plain_env (new_manager minutes true) warm_up refl refl

abbrev candidate : ℕ → Identity
candidate c = named (c ∷ []) mdns_name

rescores_alternating_example :
    (rescores known_entry
      ((candidate 1, 200) ∷ ((candidate 2, 201) ∷ ((candidate 1, 202) ∷ [])))).identity
    ≡ named (b'h' ∷ []) mdns_name
rescores_alternating_example =
    rescores_alternating known_entry []
      ((candidate 1, 200) ∷ ((candidate 2, 201) ∷ ((candidate 1, 202) ∷ []))) refl
      (refl, (refl, (refl, tt))) (omega arith, (omega arith, (omega arith, tt)))

rescores_settle_example :
    (rescores known_entry (
      (candidate 1, 200) ∷ ([] ++ ((candidate 1, 200 + settle_window) ∷ [])))).identity.display_name
    ≡ (1 ∷ [])
rescores_settle_example =
    rescores_settle known_entry (1 ∷ []) (candidate 1) (candidate 1) 200 (200 + settle_window) []
      refl ((refl, refl), ((refl, refl), tt)) (omega arith)

attribute_vouched_example :
    ((host == proxy_host) ≡ false)
    × (any
          (vouches plain_env one_device
            (sender_addresses plain_env one_device proxied_reply)
            host
            name_claim)
          proxied_reply.claims
        ≡ true)
unfolding attribute is_blank netgraspd.Types.trim netgraspd.Types.is_whitespace
    netgraspd.Types.claim_matches sender_addresses lookup mac_beq netgraspd.Types.ip_beq
    netgraspd.Device.Entry.holds netgraspd.Types.signal_beq netgraspd.Types.kind_beq
attribute_vouched_example =
    attribute_vouched plain_env one_device proxied_reply host name_claim refl

attribute_proxy_example :
    any
      (own_claim plain_env one_device proxy_host
        (sender_addresses plain_env one_device proxied_reply)
        (record { kind = mdns_name; value = b'p' ∷ [] }))
      proxied_reply.claims
    ≡ true
unfolding speaks_for_others netgraspd.Types.claim_matches sender_addresses lookup mac_beq
    netgraspd.Types.ip_beq attribute is_blank netgraspd.Types.trim netgraspd.Types.is_whitespace
    netgraspd.Device.Entry.holds netgraspd.Types.signal_beq netgraspd.Types.kind_beq
attribute_proxy_example =
    attribute_proxy plain_env one_device proxied_reply
      (record { kind = mdns_name; value = b'p' ∷ [] }) refl refl

sweep-patience_example : 105 - known_entry.last_seen_at < patience minutes known_entry
unfolding lookup sweep netgraspd.Device.Manager.Sweep.sweep_devices mac_beq
    netgraspd.Device.Manager.Sweep.sweep_entry offline_timeout_for idle_timeout_for
sweep-patience_example = sweep-patience one_device 105 host known_entry refl refl

abbrev gone_entry : Entry
gone_entry = record known_entry { state = offline }

abbrev gone_device : Manager
gone_device = record one_device { devices = (host, gone_entry) ∷ [] }

abbrev hall : Place
hall = record { ap_name = b'x' ∷ []; location = b'y' ∷ []; edge = true }

abbrev edits : UserSettings
edits = record {
  mac = host;
  display_name = some (b'n' ∷ []);
  notes = none;
  hidden = false;
  notify = false;
  owner_item_id = none;
}

abbrev one_rescoring : List (Identity × ℕ)
one_rescoring = (candidate 1, 200) ∷ []

settled_rename :
    (adopt (after_scores known_entry one_rescoring) (candidate 1) (200 + settle_window)).1
    ≡ some known_entry.identity
unfolding adopt netgraspd.Identity.Scorer.compare after_scores netgraspd.Types.weight
    netgraspd.Identity.Scorer.settled
settled_rename = refl

adopt-Earned_example :
    (known_entry.identity ≡ (after_scores known_entry one_rescoring).identity)
    × ((adopt
          (after_scores known_entry one_rescoring)
          (candidate 1)
          (200 + settle_window)).0.identity
        ≡ candidate 1)
    × Earned
        (after_scores known_entry one_rescoring).identity
        one_rescoring
        (candidate 1)
        (200 + settle_window)
adopt-Earned_example =
    adopt-Earned known_entry one_rescoring (candidate 1) (200 + settle_window) known_entry.identity
      refl settled_rename

sweep-set_location_offline_example :
    (f : Entry) × (lookup host
        (sweep (set_location gone_device host hall arriving none 300).0 400).0.devices
      ≡ some f)
    × (f.state ≡ offline)
    × (f.current_ap ≡ some (b'x' ∷ []))
unfolding lookup mac_beq
sweep-set_location_offline_example =
    sweep-set_location_offline gone_device host hall arriving none 300 400 gone_entry refl refl
