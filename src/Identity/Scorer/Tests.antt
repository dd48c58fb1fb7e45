-- ===== src/Identity/Scorer/Tests.antt =====
-- The scorer on a device with a name of its own and a name server's.
use netgraspd.Base.{◌≤◌, ◌<◌, refl, [], ◌∷◌, none, arith}
use netgraspd.Types.{Signal, mdns_name, reverse_dns, vendor, weight, signal_eq, is_blank}
use netgraspd.Identity.Scorer.{IdentityInput, resolve}
use netgraspd.Identity.Scorer.Rank.{Evidence, Unrivalled, resolve_strongest, resolve-Evidence}

abbrev own_name : Signal
own_name = record { kind = mdns_name; value = b'a' ∷ [] }

abbrev server_name : Signal
server_name = record { kind = reverse_dns; value = b'r' ∷ [] }

abbrev maker : Signal
maker = record { kind = vendor; value = b'v' ∷ [] }

abbrev two_names : IdentityInput
two_names = record {
  mac = record { o0 = 2; o1 = 0; o2 = 0; o3 = 0; o4 = 0; o5 = 1 };
  signals = server_name ∷ (own_name ∷ []);
  device_type = none;
}

resolve_strongest_example : weight mdns_name ≤ (resolve two_names).confidence
unfolding netgraspd.Types.signal_beq netgraspd.Types.kind_beq is_blank netgraspd.Types.trim
    netgraspd.Types.is_whitespace
resolve_strongest_example = resolve_strongest two_names own_name refl refl

resolve-Evidence_example :
    Evidence two_names (resolve two_names) × Unrivalled two_names (resolve two_names).source
resolve-Evidence_example = resolve-Evidence two_names

own_name_wins : weight vendor < (resolve two_names).confidence
unfolding netgraspd.Types.signal_beq netgraspd.Types.kind_beq is_blank netgraspd.Types.trim
    netgraspd.Types.is_whitespace netgraspd.Types.weight
own_name_wins = omega (arith, resolve_strongest two_names own_name refl refl)
