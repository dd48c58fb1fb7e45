-- ===== src/Analyze/ArpScan/Vouched.antt =====
-- src/analyze/arp_scan.rs: where in the traffic the table's windows come from.
use netgraspd.Base.{
  ℕ, ◌≡◌, Bool, true, false, ◌&&◌, Option, none, some, List, [], ◌∷◌, ◌==◌, nat_eq, length, drop,
  keep_if, any, All, leb, arith, Bool-cases, Option-cases, inl, inr, All-append, All-keep_if, eqb,
}
use netgraspd.Base.Assoc.{lookup, contains_key, Distinct, All-insert, lookup-All}
use netgraspd.Time.{within}
use netgraspd.Types.Mac.{MacAddr, mac_eq}
use netgraspd.Types.Observed.{Observation, ArpDetail, arp_detail}
use netgraspd.Analyze.Window.{make_room, DistinctWindow, new_distinct, record_within, note_value}
use netgraspd.Analyze.Window.Counting.{IsWindow}
use netgraspd.Analyze.Window.Entries.{make_room-All}
use netgraspd.Analyze.ArpScan.{ArpScan, Tracked, untracked, tracked_of, is_question}

-- A request for an address, as a sweep makes them.
abbrev pub question : Option ArpDetail → ℕ → Bool
question none x = false
question (some d) x = is_question d && eqb d.target_ip x

unfoldable pub asks : Observation → MacAddr → ℕ → ℕ → Bool
asks o m x t = (o.mac == m) && (question (arp_detail o) x && eqb o.observed_at t)

-- The device asked for the address at that time.
abbrev pub asked : List Observation → MacAddr → ℕ → ℕ → Bool
asked history m x t = any (λ o. asks o m x t) history

abbrev pub AllAsked : List Observation → MacAddr → List (ℕ × ℕ) → Type 0
AllAsked history m seen = All (λ p. asked history m p.0 p.1 ≡ true) seen

pub AllAsked-more :
    (o : Observation) (history : List Observation) (m : MacAddr) (seen : List (ℕ × ℕ))
    → AllAsked history m seen
    → AllAsked (o ∷ history) m seen
AllAsked-more o history m [] h = tt
AllAsked-more o history m (p ∷ seen) h = (ground arith, AllAsked-more o history m seen h.1)

pub drop-All : {A : Type 0} (P : A → Type 0) (xs : List A) → All P xs → All P (drop 1 xs)
drop-All P [] h = tt
drop-All P (x ∷ xs) h = h.1

-- What a window holds was held before, or is the value recorded.
pub note_value-All :
    (P : ℕ × ℕ → Type 0) (x now capacity : ℕ) (seen : List (ℕ × ℕ))
    → P (x, now)
    → All P seen
    → All P (note_value x now capacity seen)
unfolding note_value
note_value-All P x now capacity seen p h = elim (Bool-cases (contains_key x seen)) [
  | inl f ↦ rw f (All-insert P x now seen p h)
  | inr f ↦ elim (Bool-cases (leb capacity (length seen))) [
    | inl g ↦ rw (f, g) (All-append P (drop 1 seen) ((x, now) ∷ []) (drop-All P seen h) (p, tt))
    | inr g ↦ rw (f, g) (All-append P seen ((x, now) ∷ []) h (p, tt))
  ]
]

pub record_within-All :
    (P : ℕ × ℕ → Type 0) (age : Option ℕ) (x now : ℕ) (w : DistinctWindow ℕ)
    → P (x, now)
    → All P w.seen
    → All P (record_within age x now w).0.seen
unfolding record_within
record_within-All P none x now w p h = h
record_within-All P (some age) x now w p h =
    note_value-All P x now w.capacity (keep_if (λ q. within q.1 now age) w.seen) p
      (All-keep_if P (λ q. within q.1 now age) w.seen h)

-- An entry of the table is vouched for by the traffic.
unfoldable pub Vouched : List Observation → MacAddr × (Tracked × ℕ) → Type 0
Vouched history e = IsWindow e.1.0.targets × AllAsked history e.0 e.1.0.targets.seen

pub Vouched-more :
    (o : Observation) (history : List Observation) (m : List (MacAddr × (Tracked × ℕ)))
    → All (Vouched history) m
    → All (Vouched (o ∷ history)) m
unfolding Vouched
Vouched-more o history [] h = tt
Vouched-more o history (e ∷ m) h =
    ((h.0.0, AllAsked-more o history e.0 e.1.0.targets.seen h.0.1), Vouched-more o history m h.1)

pub untracked-Vouched :
    (history : List Observation) (m : MacAddr) (t : ℕ) → Vouched history (m, (untracked, t))
unfolding Vouched IsWindow new_distinct Distinct
untracked-Vouched history m t = ((tt, (omega arith, omega arith)), tt)

pub tracked_of-Vouched :
    (history : List Observation) (m : MacAddr) (a : ArpScan)
    → All (Vouched history) a.tracked.entries
    → (t : ℕ) × Vouched history (m, (tracked_of m a, t))
unfolding tracked_of
tracked_of-Vouched history m a h =
    let room = make_room-All (Vouched history) m a.tracked h in
    elim (Option-cases (lookup m (make_room m a.tracked).entries)) [
      | inl f ↦ rw f (0, untracked-Vouched history m 0)
      | inr (p, f) ↦
          rw f (p.1, lookup-All (Vouched history) m p (make_room m a.tracked).entries room f)
    ]
