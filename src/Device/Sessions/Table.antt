-- ===== src/Device/Sessions/Table.antt =====
-- The table as a whole, and changes to one entry of it, seen from every device's session.
use netgraspd.Base.{◌≡◌, List, [], ◌∷◌, some, ◌==◌, arith, Bool-cases, inl, inr, if◌then◌else◌}
use netgraspd.Base.Assoc.{lookup, insert, Distinct, lookup-insert, insert-Distinct}
use netgraspd.Types.{MacAddr, mac_eq, mac_beq_iff}
use netgraspd.Device.Effect.{Effect}
use netgraspd.Device.Entry.{Entry}
use netgraspd.Device.Sessions.{replay, session_of, session_in, Tracks}

abbrev pub Keyed : List (MacAddr × Entry) → Type 0
Keyed [] = Unit {0}
Keyed ((k, e) ∷ rest) = (e.mac ≡ k) × Keyed rest

pub record IsTable (devices : List (MacAddr × Entry)) : Type 0 where
  pub keyed : Keyed devices
  pub distinct : Distinct devices

pub mac_of_lookup :
    (k : MacAddr) (e : Entry) (devices : List (MacAddr × Entry))
    → Keyed devices
    → lookup k devices ≡ some e
    → e.mac ≡ k
unfolding lookup
mac_of_lookup k e [] d h = absurd (ground arith)
mac_of_lookup k e ((j, f) ∷ rest) d h = ground (arith, mac_beq_iff j k, mac_of_lookup k e rest d.1)

insert-Keyed :
    (k : MacAddr) (e : Entry) (devices : List (MacAddr × Entry))
    → e.mac ≡ k
    → Keyed devices
    → Keyed (insert k e devices)
unfolding insert
insert-Keyed k e [] h d = (h, tt)
insert-Keyed k e ((j, f) ∷ rest) h d = ground (arith, mac_beq_iff j k, insert-Keyed k e rest h d.1)

pub insert-IsTable :
    (k : MacAddr) (e : Entry) (devices : List (MacAddr × Entry))
    → e.mac ≡ k
    → IsTable devices
    → IsTable (insert k e devices)
insert-IsTable k e devices h t = record {
  keyed = insert-Keyed k e devices h t.keyed;
  distinct = insert-Distinct k e devices t.distinct;
}

-- Every device's session, replayed over the effects from the one table, gives the other's.
abbrev pub Follows : List (MacAddr × Entry) → List Effect → List (MacAddr × Entry) → Type 0
Follows d xs d' = (mac : MacAddr) → replay mac (session_in d mac) xs ≡ some (session_in d' mac)

pub session_in-insert :
    (k : MacAddr) (e : Entry) (devices : List (MacAddr × Entry)) (mac : MacAddr)
    → session_in (insert k e devices) mac
      ≡ (if k == mac then session_of e else session_in devices mac)
unfolding session_in
session_in-insert k e devices mac = rw (lookup-insert k mac e devices, session_in) (ground arith)

pub session_in-lookup :
    (k : MacAddr) (e : Entry) (devices : List (MacAddr × Entry))
    → lookup k devices ≡ some e
    → session_in devices k ≡ session_of e
unfolding session_in
session_in-lookup k e devices h = rw (h, session_in)

pub Follows-update :
    (k : MacAddr) (e e' : Entry) (xs : List Effect) (devices : List (MacAddr × Entry))
    → lookup k devices ≡ some e
    → e.mac ≡ k
    → Tracks e xs e'
    → Follows devices xs (insert k e' devices)
Follows-update k e e' xs devices h m t mac = elim (Bool-cases (k == mac)) [
  | inl here ↦
      let same = (mac_beq_iff k mac).0 here in
      rw (session_in-insert k e' devices mac, here, ← same, session_in-lookup k e devices h, ← m)
        t.own
  | inr away ↦
      rw (session_in-insert k e' devices mac, away)
        (t.other mac (session_in devices mac) (rw m away))
]
