-- ===== src/Analyze/Window/Entries.antt =====
-- src/analyze/window.rs: what holds of every entry, making room keeps.
use netgraspd.Base.{ℕ, Bool, true, false, List, [], ◌∷◌, All, Eq, if◌then◌else◌}
use netgraspd.Base.Assoc.{All-remove}
use netgraspd.Analyze.Window.{BoundedMap, evict_from, evict_oldest, make_room}

module _ {K : Type 0} {V : Type 0} ⦃e : Eq K⦄ (P : K × (V × ℕ) → Type 0) where
  evict_from-All :
      (es : List (K × (V × ℕ))) (m : BoundedMap K V)
      → All P m.entries
      → All P (evict_from es m).entries
  unfolding evict_from
  evict_from-All [] m h = h
  evict_from-All ((k, (v, t)) ∷ rest) m h = All-remove P _ m.entries h

  either :
      (b : Bool) (m r : BoundedMap K V)
      → All P m.entries
      → All P r.entries
      → All P (if b then m else r).entries
  either true m r x y = x
  either false m r x y = y

  pub make_room-All : (k : K) (m : BoundedMap K V) → All P m.entries → All P (make_room k m).entries
  unfolding make_room evict_oldest
  make_room-All k m h = either _ (evict_oldest m) m (evict_from-All m.entries m h) h
