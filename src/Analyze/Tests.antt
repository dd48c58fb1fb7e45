-- ===== src/Analyze/Tests.antt =====
-- A gateway, a forger that answers for its address, and maps and windows that are full.
use netgraspd.Base.{
  suc, leb, ◌≢◌, if◌then◌else◌, ℕ, ◌<◌, Text, ◌*◌, ◌++◌, ◌↔◌, ok, Option, ◌≡◌, true, false, ◌⊎◌,
  refl, List, [], ◌∷◌, none, some, arith, nat_eq, length, All,
}
use netgraspd.Base.Assoc.{lookup, Distinct, contains_key}
use netgraspd.Types.Mac.{MacAddr, mac_eq, parse_mac, mac_text}
use netgraspd.Types.Net.{IpAddr, v4}
use netgraspd.Types.Observed.{Observation, request, reply, arp, dhcp, arp_detail, dhcp_detail}
use netgraspd.Analyze.Gateway.{
  GatewayTracker, dhcp, rank, new_tracker, observe_gateway, observe_all,
}
use netgraspd.Analyze.Gateway.Bounds.{Bounded, observe_all-Bounded}
use netgraspd.Analyze.Gateway.Replace.{observe_replaces}
use netgraspd.Analyze.Window.{BoundedMap, DistinctWindow, insert_at, record_value}
use netgraspd.Analyze.Window.Eviction.{IsBounded, Since, is_full, insert_at_lem}
use netgraspd.Analyze.Detector.{Context, heard}
use netgraspd.Analyze.ArpSpoof.{SpoofDetails, new_spoof, spoof, impersonates}
use netgraspd.Analyze.ArpSpoof.Claims.{claimed_by, Taken, spoof-Attack, after_claims}
use netgraspd.Analyze.RogueDhcp.{RogueDetails, new_rogue, rogue}
use netgraspd.Analyze.RogueDhcp.Servers.{is_served, Foreign, rogue-Foreign, after_traffic}
use netgraspd.Analyze.Chain.{Outside, Chain, Stimulus, observed, spoofing, serving}
use netgraspd.Config.Security.{SecurityConfig, validate_security}
use netgraspd.Config.Security.Accepted.{
  IsUsable, ReadInFull, with_gateway_threshold, validate_security_iff,
}
use netgraspd.Analyze.Chain.Setup.{SparesNamed, new_chain, new_chain-Spares}
use netgraspd.Time.{second, within}
use netgraspd.Types.Evidence.{trim}
use netgraspd.Analyze.Chain.Exempt.{Permitted, feed_all, feed_all-Permitted}
use netgraspd.Analyze.IpConflict.{ConflictDetails, new_conflict, conflict}
use netgraspd.Analyze.IpConflict.Claimants.{Contested, conflict-Contested, after_all as after_uses}
use netgraspd.Analyze.ArpScan.{ScanDetails, new_scan, scan}
use netgraspd.Analyze.ArpScan.Asked.{Grounds, after_all, scan-Grounds}
use netgraspd.Types.Event.{high, offer}
use netgraspd.Analyze.Window.Counting.{IsWindow, Recent}
use netgraspd.Analyze.Window.Counting.Members.{record_value_lem}

abbrev router : MacAddr
router = record { o0 = 2; o1 = 0; o2 = 0; o3 = 0; o4 = 0; o5 = 1 }

abbrev forger : MacAddr
forger = record { o0 = 2; o1 = 0; o2 = 0; o3 = 0; o4 = 0; o5 = 66 }

abbrev forged_reply : Observation
forged_reply = record {
  mac = forger;
  ip = some (v4 1);
  interface = [];
  source = "arp";
  kind = reply;
  signals = [];
  claims = [];
  detail = some (
      arp (record {
        op = reply;
        sender_mac = forger;
        sender_ip = some 1;
        target_ip = 7;
        gratuitous = false;
      }));
  observed_at = 100;
}

abbrev learned_gateway : GatewayTracker
learned_gateway = record {
  ip = some 1;
  ip_source = dhcp;
  mac = some router;
  mac_source = dhcp;
  askers = [];
  proxy_arp = true;
  proxied = [];
}

observe_replaces_example :
    ((observe_gateway forged_reply learned_gateway).mac ≡ some router)
    ⊎ (rank dhcp < rank (observe_gateway forged_reply learned_gateway).mac_source)
unfolding observe_gateway netgraspd.Types.Mac.mac_beq
observe_replaces_example = observe_replaces router learned_gateway forged_reply refl refl

observe_all-Bounded_example : Bounded (observe_all (forged_reply ∷ []) (new_tracker none none))
observe_all-Bounded_example = observe_all-Bounded none none (forged_reply ∷ [])

abbrev full_map : BoundedMap ℕ ℕ
full_map = record { entries = (1, (11, 100)) ∷ ((2, (22, 50)) ∷ []); capacity = 2; evictions = 0 }

full_map-IsBounded : IsBounded full_map
unfolding IsBounded Distinct lookup
full_map-IsBounded = ((refl, (refl, tt)), (omega arith, omega arith))

insert_at_lem_example :
    IsBounded (insert_at 3 33 200 full_map)
    × ((lookup 3 (insert_at 3 33 200 full_map).entries ≡ some (33, 200))
        × ((length (insert_at 3 33 200 full_map).entries ≡ (
              if contains_key 3 full_map.entries
              then length full_map.entries
              else if leb full_map.capacity (length full_map.entries)
              then length full_map.entries
              else suc (length full_map.entries)))
            × ((j : ℕ) (p : ℕ × ℕ)
                → j ≢ 3
                → lookup j full_map.entries ≡ some p
                → (lookup j (insert_at 3 33 200 full_map).entries ≡ some p)
                  ⊎ ((is_full 3 full_map ≡ true) × Since p.1 full_map.entries))))
insert_at_lem_example = insert_at_lem 3 33 200 full_map full_map-IsBounded

abbrev full_window : DistinctWindow ℕ
full_window = record { seen = (7, 100) ∷ ((8, 150) ∷ []); capacity = 2 }

full_window-IsWindow : IsWindow full_window
unfolding IsWindow Distinct lookup
full_window-IsWindow = ((refl, (refl, tt)), (omega arith, omega arith))

record_value_lem_example :
    ((IsWindow (record_value some 9 200 60 full_window).0
        × Recent 200 60 (record_value some 9 200 60 full_window).0.seen)
      × ((lookup 9 (record_value some 9 200 60 full_window).0.seen ≡ some 200)
          × ((record_value some 9 200 60 full_window).1
              ≡ length (record_value some 9 200 60 full_window).0.seen)))
    × (((u t : ℕ)
          → u ≢ 9
          → lookup u (record_value some 9 200 60 full_window).0.seen ≡ some t
          → lookup u full_window.seen ≡ some t)
        × ((u t : ℕ)
            → u ≢ 9
            → lookup u full_window.seen ≡ some t
            → within t 200 60 ≡ true
            → (lookup u (record_value some 9 200 60 full_window).0.seen ≡ some t)
              ⊎ ((record_value some 9 200 60 full_window).1 ≡ full_window.capacity)))
record_value_lem_example = record_value_lem some 9 200 60 60 full_window full_window-IsWindow refl

abbrev sweep_request : Observation
sweep_request = record {
  mac = forger;
  ip = none;
  interface = [];
  source = "arp";
  kind = request;
  signals = [];
  claims = [];
  detail = some (
      arp (record {
        op = request;
        sender_mac = forger;
        sender_ip = some 66;
        target_ip = 7;
        gratuitous = false;
      }));
  observed_at = 100;
}

abbrev plain_context : Context
plain_context = record { gateway = learned_gateway; exempt = []; priority = high; max_tracked = 4 }

abbrev no_text : ScanDetails → Text
no_text d = []

one_alert :
    length
      (scan some no_text plain_context sweep_request
        (after_all some no_text [] (new_scan 60 1 1 4))).1
    ≡ 1
unfolding netgraspd.Analyze.ArpScan.scan netgraspd.Types.Observed.arp_detail
    netgraspd.Analyze.ArpScan.is_question netgraspd.Types.Net.v4_unspecified
    netgraspd.Types.Net.v4_broadcast netgraspd.Types.Net.v4_multicast
    netgraspd.Analyze.ArpScan.threshold_for netgraspd.Analyze.Gateway.is_gateway
    netgraspd.Types.Mac.mac_beq after_all new_scan record_value lookup
    netgraspd.Analyze.ArpScan.tracked_of netgraspd.Analyze.Window.make_room
    netgraspd.Analyze.Window.new_map netgraspd.Analyze.Window.new_distinct
    netgraspd.Analyze.ArpScan.scan_target netgraspd.Analyze.Detector.cooled_down
    netgraspd.Analyze.Window.note_value netgraspd.Analyze.Window.record_within
one_alert = refl

scan-Grounds_example :
    Grounds some no_text plain_context sweep_request [] 60
      (after_all some no_text [] (new_scan 60 1 1 4))
scan-Grounds_example =
    scan-Grounds some no_text plain_context sweep_request [] 60 1 1 4 60 refl
      (omega (arith, one_alert))

abbrev using : MacAddr → ℕ → Observation
using m at = record {
  mac = m;
  ip = some (v4 9);
  interface = [];
  source = "arp";
  kind = reply;
  signals = [];
  claims = [];
  detail = none;
  observed_at = at;
}

abbrev no_details : ConflictDetails → Text
no_details d = []

abbrev no_address : IpAddr → Text
no_address a = []

abbrev router_first : List (Context × Observation)
router_first = (plain_context, using router 50) ∷ []

two_users :
    length
      (conflict no_address no_details plain_context
        (using forger 100)
        (after_uses no_address no_details router_first (new_conflict 60 4))).1
    ≡ 1
unfolding conflict netgraspd.Analyze.IpConflict.is_shared netgraspd.Types.Net.v4_unspecified
    netgraspd.Types.Net.v4_broadcast netgraspd.Types.Net.v4_multicast
    netgraspd.Analyze.Gateway.proxy_arp_for netgraspd.Types.Mac.mac_beq
    netgraspd.Analyze.IpConflict.users_of lookup netgraspd.Analyze.Window.make_room after_uses
    netgraspd.Analyze.Window.update_at netgraspd.Base.Assoc.insert new_conflict
    netgraspd.Analyze.Window.new_map netgraspd.Analyze.IpConflict.used_by
    netgraspd.Analyze.IpConflict.simultaneous netgraspd.Analyze.Detector.cooled_down
    netgraspd.Analyze.IpConflict.use_address netgraspd.Types.Observed.arp_detail
    netgraspd.Analyze.Gateway.is_gateway netgraspd.Analyze.Gateway.is_gateway_ip
two_users = refl

conflict-Contested_example :
    Contested no_address no_details (using forger 100) (heard router_first) 60
conflict-Contested_example =
    conflict-Contested no_address no_details plain_context (using forger 100) router_first 60 4
      (omega (arith, two_users))

abbrev no_spoof : SpoofDetails → Text
no_spoof d = []

-- The router answered for its address, and 50 ns later the forger does.
abbrev rightful_reply : Observation
rightful_reply = record forged_reply { mac = router; observed_at = 50 }

-- A context whose gateway is not known.
abbrev open_context : Context
open_context = record plain_context { gateway = new_tracker none none }

abbrev router_claims : List (Context × Observation)
router_claims = (open_context, rightful_reply) ∷ []

one_forgery :
    length
      (spoof no_address no_spoof open_context forged_reply
        (after_claims no_address no_spoof router_claims (new_spoof 60 4))).1
    ≡ 1
unfolding spoof arp_detail netgraspd.Types.Net.v4_unspecified netgraspd.Types.Net.v4_broadcast
    netgraspd.Types.Net.v4_multicast netgraspd.Analyze.Gateway.proxy_arp_for new_tracker
    impersonates netgraspd.Analyze.ArpSpoof.still_active netgraspd.Analyze.ArpSpoof.held_by_other
    netgraspd.Analyze.ArpSpoof.holder_at lookup after_claims insert_at netgraspd.Base.Assoc.insert
    new_spoof netgraspd.Analyze.Window.new_map netgraspd.Analyze.ArpSpoof.claim
    netgraspd.Analyze.Detector.cooled_down netgraspd.Analyze.Gateway.is_gateway
    netgraspd.Analyze.Gateway.is_gateway_ip netgraspd.Analyze.Window.make_room
    netgraspd.Types.Mac.mac_beq
one_forgery = refl

spoof-Attack_example :
    (x : ℕ) × (claimed_by (arp_detail forged_reply) ≡ some x)
    × ((impersonates open_context forger x ≡ true) ⊎ Taken forged_reply (heard router_claims) x 60)
spoof-Attack_example =
    spoof-Attack no_address no_spoof open_context forged_reply router_claims 60 4
      (omega (arith, one_forgery))

abbrev no_rogue : RogueDetails → Text
no_rogue d = []

abbrev offered : MacAddr → ℕ → Observation
offered m at = record (using m at) {
  source = "dhcp";
  detail = some (
      dhcp (record {
        message_type = offer;
        client_mac = none;
        assigned_ip = some 9;
        router = some 1;
      }));
}

abbrev router_offers : List (Context × Observation)
router_offers = (plain_context, offered router 50) ∷ []

one_rogue :
    length
      (rogue no_address no_rogue plain_context
        (offered forger 100)
        (after_traffic no_address no_rogue router_offers (new_rogue []))).1
    ≡ 1
unfolding rogue dhcp_detail netgraspd.Types.Event.is_server_message
    netgraspd.Analyze.RogueDhcp.is_legitimate after_traffic new_rogue netgraspd.Types.Mac.mac_beq
    netgraspd.Analyze.Detector.cooled_down lookup netgraspd.Config.Security.parse_macs
one_rogue = refl

rogue-Foreign_example :
    (is_served (dhcp_detail (offered forger 100)) ≡ true)
    × Foreign (new_rogue []).configured (heard router_offers) forger
rogue-Foreign_example =
    rogue-Foreign no_address no_rogue plain_context (offered forger 100) router_offers []
      (omega (arith, one_rogue))

abbrev silent : Outside
silent = record {
  from_std = some;
  show = no_address;
  render_scan = no_text;
  render_spoof = no_spoof;
  render_rogue = no_rogue;
  render_conflict = no_details;
  render_announcement = λ d. [];
  render_change = λ d. [];
}

abbrev two_detectors : Chain
two_detectors = record {
  analyzers = spoofing (new_spoof 60 4) ∷ (serving (new_rogue []) ∷ []);
  context = record open_context { exempt = router ∷ [] };
  enabled = true;
}

abbrev some_stimuli : List Stimulus
some_stimuli = observed rightful_reply ∷ (observed forged_reply ∷ [])

feed_all-Permitted_example :
    All (Permitted (router ∷ []) true) (feed_all silent two_detectors some_stimuli).1
feed_all-Permitted_example = feed_all-Permitted silent some_stimuli two_detectors

-- The address of the router, which is exempt, with spaces around it.
abbrev router_spelled : Text
router_spelled = b' ' ∷ (mac_text router ++ (b' ' ∷ []))

abbrev guarded : SecurityConfig
guarded = record {
  enabled = true;
  gateway_mac = [];
  gateway_ip = [];
  proxy_arp_gateway = true;
  exempt_macs = router_spelled ∷ [];
  max_tracked = 4;
  arp_scan = record {
    enabled = true;
    window = 30 * second;
    threshold = 10;
    gateway_threshold = 100;
  };
  arp_spoof = record { enabled = true; grace_period = 60 * second };
  rogue_dhcp = record { enabled = true; known_servers = [] };
  identity_change = record { enabled = false; sensitivity = b'a' ∷ (b'n' ∷ (b'y' ∷ [])) };
  ip_conflict = record { enabled = true; active_within = 60 * second };
  gratuitous_arp = record { enabled = false; window = 10 * second; threshold = 5 };
  notifications = record {
    enabled = true;
    priority = high;
    bypass_quiet_hours = true;
    bypass_debounce = false;
    bypass_batch_window = true;
  };
}

abbrev no_ip4 : Text → Option ℕ
no_ip4 t = none

router_read : parse_mac (trim router_spelled) ≡ some router
unfolding parse_mac trim netgraspd.Types.Evidence.is_whitespace mac_text
router_read = refl

guarded_accepted : validate_security no_ip4 guarded ≡ ok tt
unfolding validate_security trim parse_mac netgraspd.Types.Evidence.is_whitespace mac_text
guarded_accepted = refl

validate_security_iff_example :
    (validate_security no_ip4 (with_gateway_threshold 0 guarded) ≡ ok tt)
    ↔ (IsUsable no_ip4 guarded × ReadInFull no_ip4 guarded)
validate_security_iff_example = validate_security_iff no_ip4 guarded 0

new_chain-Spares_example :
    All
      (SparesNamed (feed_all silent (new_chain no_ip4 guarded) some_stimuli).1)
      (router_spelled ∷ [])
new_chain-Spares_example = new_chain-Spares silent no_ip4 guarded some_stimuli guarded_accepted
