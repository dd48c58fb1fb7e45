-- ===== src/Analyze/Window.antt =====
-- src/analyze/window.rs: the bounded sliding windows of the analyzers. A touched entry is a value
-- and the time of its last touch. `chrono::Duration::from_std`, which fails on a duration out of
-- its range, is the parameter `from_std`. The count of evictions is not wrapped at 64 bits.
use netgraspd.Base.{
  ℕ, suc, ◌+◌, ◌-◌, ◌≤◌, max, Bool, true, false, ◌&&◌, not, Option, none, some, List, [], ◌∷◌, ◌++◌,
  ltb, leb, length, drop, keep_if, contains, if◌then◌else◌, Eq, ◌==◌,
}
use netgraspd.Base.Assoc.{lookup, insert, remove, contains_key}
use netgraspd.Time.{within}
pub mod Eviction
pub mod Counting
pub mod Entries

pub record BoundedMap (K : Type 0) (V : Type 0) : Type 0 where
  pub entries : List (K × (V × ℕ))
  pub capacity : ℕ
  pub evictions : ℕ

abbrev pub value_or : {V : Type 0} → V → Option (V × ℕ) → V
value_or d none = d
value_or d (some p) = p.0

module _ {K : Type 0} {V : Type 0} where
  unfoldable pub new_map : ℕ → BoundedMap K V
  new_map capacity = record { entries = []; capacity = max capacity 1; evictions = 0 }

  -- `min_by_key` over the touch times, which keeps the first of equal ones.
  unfoldable pub oldest : K → ℕ → List (K × (V × ℕ)) → K
  oldest k t [] = k
  oldest k t ((j, (v, s)) ∷ m) =
      let j_first = oldest j s m in
      let k_first = oldest k t m in if ltb s t then j_first else k_first

  prune_older : Option ℕ → ℕ → BoundedMap K V → BoundedMap K V
  prune_older none now m = m
  prune_older (some age) now m = record m {
    entries = keep_if (λ e. within e.1.1 now age) m.entries;
  }

  -- `BoundedMap::prune`, given the age as `from_std` has it.
  unfoldable pub prune : (ℕ → Option ℕ) → ℕ → ℕ → BoundedMap K V → BoundedMap K V
  unfolding prune_older
  prune from_std now max_age m = prune_older (from_std max_age) now m

module _ {K : Type 0} {V : Type 0} ⦃e : Eq K⦄ where
  unfoldable pub evict_from : List (K × (V × ℕ)) → BoundedMap K V → BoundedMap K V
  unfolding oldest
  evict_from [] m = m
  evict_from ((k, (v, t)) ∷ rest) m = record m {
    entries = remove (oldest k t rest) m.entries;
    evictions = m.evictions + 1;
  }

  unfoldable pub evict_oldest : BoundedMap K V → BoundedMap K V
  unfolding evict_from
  evict_oldest m = evict_from m.entries m

  -- The guard that both insertions start with.
  unfoldable pub make_room : K → BoundedMap K V → BoundedMap K V
  unfolding evict_oldest
  make_room k m =
      if not (contains_key k m.entries) && leb m.capacity (length m.entries)
      then evict_oldest m
      else m

  unfoldable pub insert_at : K → V → ℕ → BoundedMap K V → BoundedMap K V
  unfolding make_room
  insert_at k v now m =
      let room : BoundedMap K V = make_room k m in
      record room { entries = insert k (v, now) room.entries }

  -- `BoundedMap::entry_or_insert_with`, and the value that the reference it returns is given next.
  unfoldable pub update_at : K → ℕ → V → (V → V) → BoundedMap K V → BoundedMap K V
  unfolding make_room
  update_at k now default f m =
      let room : BoundedMap K V = make_room k m in
      let v : V = value_or default (lookup k room.entries) in
      record room { entries = insert k (f v, now) room.entries }

  touch_value : Option (V × ℕ) → ℕ → K → BoundedMap K V → BoundedMap K V
  touch_value none now k m = m
  touch_value (some p) now k m = record m { entries = insert k (p.0, now) m.entries }

  -- `BoundedMap::get_mut`, before the value is written.
  unfoldable pub touch_at : K → ℕ → BoundedMap K V → BoundedMap K V
  unfolding touch_value
  touch_at k now m = touch_value (lookup k m.entries) now k m

-- `DistinctWindow`
pub record DistinctWindow (T : Type 0) : Type 0 where
  pub seen : List (T × ℕ)
  pub capacity : ℕ

module _ {T : Type 0} ⦃e : Eq T⦄ where
  unfoldable pub new_distinct : ℕ → DistinctWindow T
  new_distinct capacity = record { seen = []; capacity = max capacity 1 }

  -- The match on `find`: a value that is held is touched where it stands, a new one is put last,
  -- and the first is dropped where there is no room.
  unfoldable pub note_value : T → ℕ → ℕ → List (T × ℕ) → List (T × ℕ)
  note_value value now capacity seen =
      if contains_key value seen
      then insert value now seen
      else (if leb capacity (length seen) then drop 1 seen else seen) ++ ((value, now) ∷ [])

  unfoldable pub record_within : Option ℕ → T → ℕ → DistinctWindow T → DistinctWindow T × ℕ
  unfolding note_value
  record_within none value now w = (w, length w.seen)
  record_within (some age) value now w =
      let kept : List (T × ℕ) =
        note_value value now w.capacity (keep_if (λ p. within p.1 now age) w.seen) in
      (record w { seen = kept }, length kept)

  unfoldable pub record_value : (ℕ → Option ℕ) → T → ℕ → ℕ → DistinctWindow T → DistinctWindow T × ℕ
  unfolding record_within
  record_value from_std value now window w = record_within (from_std window) value now w

-- `RateWindow`
pub record RateWindow : Type 0 where
  pub events : List ℕ
  pub capacity : ℕ

unfoldable pub new_rate : ℕ → RateWindow
new_rate capacity = record { events = []; capacity = max capacity 1 }

unfoldable pub note_event : ℕ → ℕ → List ℕ → List ℕ
note_event now capacity events =
    (if leb capacity (length events) then drop 1 events else events) ++ (now ∷ [])

record_event_within : Option ℕ → ℕ → RateWindow → RateWindow × ℕ
unfolding note_event
record_event_within none now w = (w, length w.events)
record_event_within (some age) now w =
    let kept : List ℕ = note_event now w.capacity (keep_if (λ at. within at now age) w.events) in
    (record w { events = kept }, length kept)

unfoldable pub record_event : (ℕ → Option ℕ) → ℕ → ℕ → RateWindow → RateWindow × ℕ
unfolding record_event_within
record_event from_std now window w = record_event_within (from_std window) now w
