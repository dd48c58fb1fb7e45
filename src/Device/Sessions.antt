-- ===== src/Device/Sessions.antt =====
-- What the effects mean to the database: a device has a row once it is discovered, and one presence
-- session and one location stay may be open for it. `replay` applies effects to these, and fails
-- where a row is made twice or used before it is there, where a session is opened twice, and where
-- a session or a stay is closed that is not open.
pub mod Entries
pub mod Table
pub mod Steps
pub mod Runs
use netgraspd.Base.{
  Bool, true, false, not, ◌≡◌, refl, ◌∙◌, List, [], ◌∷◌, ◌++◌, Option, none, some, ◌>>=◌,
  if◌then◌else◌, is_some, ◌==◌, arith, Option-cases, inl, inr,
}
use netgraspd.Base.Assoc.{lookup}
use netgraspd.Types.{MacAddr, mac_eq, mac_beq_iff}
use netgraspd.Types.Event.{is_offline}
use netgraspd.Device.Effect.{
  Effect, event, signal, address, presence_opened, presence_closed, location_changed,
  location_closed,
}
use netgraspd.Device.Entry.{Entry}
use netgraspd.Device.Manager.{Manager}

pub record Session : Type 0 where
  pub known : Bool
  pub present : Bool
  pub placed : Bool

abbrev pub closed : Session
closed = record { known = false; present = false; placed = false }

-- An effect that needs the device's row.
needs_row : Bool → Session → Option Session → Option Session
needs_row mine s next = if mine then (if s.known then next else none) else some s

unfoldable pub apply : MacAddr → Session → Effect → Option Session
unfolding needs_row
apply mac s (presence_opened k interface ip at) =
    needs_row (k == mac) s (if s.present then none else some (record s { present = true }))
apply mac s (presence_closed k at) =
    needs_row (k == mac) s (if s.present then some (record s { present = false }) else none)
apply mac s (location_changed k ap location at) =
    needs_row (k == mac) s (some (record s { placed = true }))
apply mac s (location_closed k at) =
    needs_row (k == mac) s (if s.placed then some (record s { placed = false }) else none)
apply mac s (Effect.discovered snap) =
    if snap.mac == mac then (if s.known then none else some (record s { known = true })) else some s
apply mac s (event e) = some s
apply mac s (signal k sig at) = needs_row (k == mac) s (some s)
apply mac s (address k ip interface at) = needs_row (k == mac) s (some s)

unfoldable pub replay : MacAddr → Session → List Effect → Option Session
unfolding apply
replay mac s [] = some s
replay mac s (x ∷ xs) = apply mac s x >>= λ t. replay mac t xs

pub replay-append :
    (mac : MacAddr) (s t : Session) (xs ys : List Effect)
    → replay mac s xs ≡ some t
    → replay mac s (xs ++ ys) ≡ replay mac t ys
unfolding replay
replay-append mac s t [] ys h = ground arith
replay-append mac s t (x ∷ xs) ys h = elim (Option-cases (apply mac s x)) [
  | inl e ↦ absurd (ground arith)
  | inr (u, e) ↦ rw e (replay-append mac u t xs ys (ground arith))
]

-- What the table says of a device.
unfoldable pub session_of : Entry → Session
session_of e = record {
  known = true;
  present = not (is_offline e.state);
  placed = is_some e.current_ap;
}

unfoldable pub session_in : List (MacAddr × Entry) → MacAddr → Session
unfolding session_of
session_in devices mac = elim (lookup mac devices) [ none ↦ closed | some e ↦ session_of e ]

-- The effects of a change to one entry: they keep its session in step, and touch no other's.
pub record Tracks (e : Entry) (xs : List Effect) (e' : Entry) : Type 0 where
  pub same_mac : e'.mac ≡ e.mac
  pub own : replay e.mac (session_of e) xs ≡ some (session_of e')
  pub other : (mac : MacAddr) (s : Session) → (e.mac == mac) ≡ false → replay mac s xs ≡ some s
