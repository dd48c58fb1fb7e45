-- ===== src/Capture/Dedup.antt =====
-- src/capture/dedup.rs: the bounded set of recently seen observation keys. The standard library's
-- hasher is the parameter `hash`, of a MAC address, a kind's name and a time bucket; no theorem
-- needs anything of it. `seen` is the hash set, as the keys of an association list, and `order`
-- the queue, oldest key first. The capacities that the two are allocated with are not modelled.
use netgraspd.Base.{
  ℕ, suc, ◌+◌, ◌/◌, ◌^◌, ◌-◌, max, Bool, true, false, List, [], ◌∷◌, ◌++◌, if◌then◌else◌, ltb,
  length, String, nat_eq,
}
use netgraspd.Base.Assoc.{insert, HashSet, remove, contains_key}
use netgraspd.Time.{second}
use netgraspd.Types.Mac.{MacAddr}
use netgraspd.Types.Observed.{Observation, observation_as_str}
pub mod Window

pub record ObservationDedup : Type 0 where
  pub seen : HashSet ℕ
  pub order : List ℕ
  pub capacity : ℕ
  pub resolution_secs : ℕ
  pub duplicates : ℕ

unfoldable pub new_dedup : ℕ → ℕ → ObservationDedup
new_dedup capacity resolution_secs = record {
  seen = [];
  order = [];
  capacity = max capacity 1;
  resolution_secs = if ltb (max resolution_secs 1) (2 ^ 63) then max resolution_secs 1 else 1;
  duplicates = 0;
}

-- `while self.order.len() > self.capacity`, which forgets the oldest key each time.
unfoldable pub evict : ℕ → HashSet ℕ → List ℕ → HashSet ℕ × List ℕ
evict capacity seen [] = (seen, [])
evict capacity seen (old ∷ order) =
    let rest = evict capacity (remove old seen) order in
    if ltb capacity (suc (length order)) then rest else (seen, old ∷ order)

module _ (hash : MacAddr → String → ℕ → ℕ) where
  unfoldable pub key : ObservationDedup → Observation → ℕ
  key d obs =
      hash obs.mac (observation_as_str obs.kind) (obs.observed_at / second / d.resolution_secs)

unfoldable pub admit_key : ℕ → ObservationDedup → ObservationDedup × Bool
unfolding evict
admit_key k d =
    if contains_key k d.seen
    then (record d { duplicates = d.duplicates + 1 }, false)
    else let kept = evict d.capacity (insert k tt d.seen) (d.order ++ (k ∷ [])) in
      (record d { seen = kept.0; order = kept.1 }, true)

module _ (hash : MacAddr → String → ℕ → ℕ) where
  -- `ObservationDedup::admit`, whose second result is whether the observation is new.
  unfoldable pub admit : Observation → ObservationDedup → ObservationDedup × Bool
  unfolding key admit_key
  admit obs d = admit_key (key hash d obs) d

  -- The observations that the state machine is given, in order.
  unfoldable pub admitted : List Observation → ObservationDedup → List Observation
  unfolding admit
  admitted [] d = []
  admitted (o ∷ obs) d =
      let rest = admitted obs (admit o d).0 in if (admit o d).1 then o ∷ rest else rest
