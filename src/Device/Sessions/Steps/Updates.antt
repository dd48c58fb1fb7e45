-- ===== src/Device/Sessions/Steps/Updates.antt =====
-- src/device/mod.rs: observations and signals, seen from the sessions and stays of the database.
use netgraspd.Base.{
  ℕ, ◌+◌, subst, Bool, true, false, ◌||◌, ◌≡◌, refl, ap, ◌∙◌, List, [], ◌∷◌, ◌++◌, Option, none,
  some, arith, Option-cases, Bool-cases, inl, inr, option_eq, list_eq, nat_eq,
}
use netgraspd.Base.Assoc.{lookup, insert, contains_key}
use netgraspd.Types.{
  MacAddr, mac_eq, mac_beq_iff, is_group, is_zero, is_blank, IpAddr, Signal, Observation,
}
use netgraspd.Device.Effect.{Effect, signal}
use netgraspd.Device.Entry.{Env, Entry, snapshot}
use netgraspd.Device.Manager.{Manager, Attributed, attribute}
use netgraspd.Device.Manager.Observe.{
  new_entry, discover, observe_entry, add_signal, add_others, index_address, observe_in,
  observe_known, observe,
}
use netgraspd.Device.Sessions.{replay, replay-append, session_of, session_in, Tracks}
use netgraspd.Device.Sessions.Entries.{observe_entry-Tracks, add_signal_entry-Tracks}
use netgraspd.Device.Sessions.Table.{
  IsTable, mac_of_lookup, insert-IsTable, Follows, session_in-insert, session_in-lookup,
  Follows-update,
}

-- A step from one table to another with its effects.
pub record Good (d : List (MacAddr × Entry)) (xs : List Effect) (d' : List (MacAddr × Entry))
    : Type 0 where
  pub table : IsTable d'
  pub follows : Follows d xs d'

pub Good-refl : (d : List (MacAddr × Entry)) → IsTable d → Good d [] d
unfolding replay
Good-refl d t = record { table = t; follows = λ mac. refl }

pub Good-trans :
    (d e f : List (MacAddr × Entry)) (xs ys : List Effect)
    → Good d xs e
    → Good e ys f
    → Good d (xs ++ ys) f
Good-trans d e f xs ys a b = record {
  table = b.table;
  follows = λ mac.
      replay-append mac (session_in d mac) (session_in e mac) xs ys (a.follows mac) ∙ b.follows mac;
}

pub Good-update :
    (k : MacAddr) (e e' : Entry) (xs : List Effect) (d : List (MacAddr × Entry))
    → IsTable d
    → lookup k d ≡ some e
    → Tracks e xs e'
    → Good d xs (insert k e' d)
Good-update k e e' xs d t h r =
    let m = mac_of_lookup k e d t.keyed h in
    record {
      table = insert-IsTable k e' d (r.same_mac ∙ m) t;
      follows = Follows-update k e e' xs d h m r;
    }

-- Evidence in front, about a device that has its row.
pub Good-signal :
    (mac : MacAddr) (s : Signal) (at : ℕ) (d e : List (MacAddr × Entry)) (xs : List Effect)
    → (session_in d mac).known ≡ true
    → Good d xs e
    → Good d (signal mac s at ∷ xs) e
unfolding replay
Good-signal mac s at d e xs h g = record {
  table = g.table;
  follows = λ k. ground (arith, g.follows k, mac_beq_iff mac k);
}

pub add_signal-Good :
    (env : Env) (m : Manager) (mac : MacAddr) (s : Signal) (at : ℕ)
    → IsTable m.devices
    → Good m.devices (add_signal env m mac s at).1 (add_signal env m mac s at).0.devices
unfolding add_signal
add_signal-Good env m mac s at t = elim (Bool-cases (is_blank s.value)) [
  | inl b ↦ rw b (Good-refl m.devices t)
  | inr b ↦ rw b (elim (Option-cases (lookup mac m.devices)) [
    | inl h ↦ rw (h, add_signal) (Good-refl m.devices t)
    | inr (e, h) ↦
        rw (h, add_signal)
          (Good-signal mac s at _ _ _
            (ap (λ t. t.known) (session_in-lookup mac e m.devices h) ∙ unfold session_of in refl)
            (Good-update mac e _ _ m.devices t h (add_signal_entry-Tracks env m.learning s at e)))
  ])
]

pub add_others-Good :
    (env : Env) (m : Manager) (others : List (MacAddr × Signal)) (at : ℕ)
    → IsTable m.devices
    → Good m.devices (add_others env m others at).1 (add_others env m others at).0.devices
unfolding add_others
add_others-Good env m [] at t = Good-refl m.devices t
add_others-Good env m ((mac, s) ∷ rest) at t =
    let a = add_signal-Good env m mac s at t in
    let m1 = (add_signal env m mac s at).0 in
    Good-trans _ m1.devices _ _ _ a (add_others-Good env m1 rest at a.table)

pub devices-index_address :
    (m : Manager) (mac : MacAddr) (ip : Option IpAddr)
    → (index_address m mac ip).devices ≡ m.devices
devices-index_address m mac none = refl
devices-index_address m mac (some ip) = ground arith

pub observe_in-Good :
    (env : Env) (m : Manager) (obs : Observation) (known : Bool) (about : Attributed)
    → IsTable m.devices
    → Good m.devices
        (observe_in env m obs known about).1
        (observe_in env m obs known about).0.devices
unfolding observe_in
observe_in-Good env m obs known about t = elim (Option-cases (lookup obs.mac m.devices)) [
  | inl h ↦ rw (h, observe_in) (Good-refl m.devices t)
  | inr (e, h) ↦
      let g =
        Good-update obs.mac e _ _ m.devices t h
          (observe_entry-Tracks env known m.learning obs about.mine e) in
      rw (h, observe_in)
        (Good-trans _
          (insert obs.mac (observe_entry env known m.learning obs about.mine e).0 m.devices) _ _ _ g
          (add_others-Good env
            (record m {
              devices =
                  insert obs.mac (observe_entry env known m.learning obs about.mine e).0 m.devices;
              reclassifications =
                  m.reclassifications ++ (observe_entry env known m.learning obs about.mine e).2;
            })
            about.others obs.observed_at g.table))
]

pub observe_known-Good :
    (env : Env) (m : Manager) (obs : Observation) (known : Bool)
    → IsTable m.devices
    → Good m.devices (observe_known env m obs known).1 (observe_known env m obs known).0.devices
unfolding observe_known
observe_known-Good env m obs known t =
    let indexed = index_address m obs.mac obs.ip in
    let same = devices-index_address m obs.mac obs.ip in
    let about = attribute env indexed obs in
    let counted : Manager = record indexed {
      unattributed_claims = indexed.unattributed_claims + about.unattributed;
    } in
    subst
      (λ d.
        Good d (observe_in env counted obs known about).1
          (observe_in env counted obs known about).0.devices)
      same (observe_in-Good env counted obs known about (rw same t))

pub discover-Good :
    (env : Env) (m : Manager) (obs : Observation)
    → IsTable m.devices
    → contains_key obs.mac m.devices ≡ false
    → Good m.devices (discover env m obs).1 (discover env m obs).0.devices
unfolding discover
discover-Good env m obs t new = record {
  table =
      insert-IsTable obs.mac (new_entry env m.learning obs) m.devices (unfold new_entry in refl) t;
  follows = λ mac. rw (session_in-insert obs.mac (new_entry env m.learning obs) m.devices mac) (
      unfold replay session_of session_in new_entry snapshot in
      ground (arith, mac_beq_iff obs.mac mac));
}

pub observe-Good :
    (env : Env) (m : Manager) (obs : Observation)
    → IsTable m.devices
    → Good m.devices (observe env m obs).1 (observe env m obs).0.devices
unfolding observe
observe-Good env m obs t = elim (Bool-cases (is_group obs.mac || is_zero obs.mac)) [
  | inl group ↦ rw group (Good-refl m.devices t)
  | inr device ↦ rw device (elim (Bool-cases (contains_key obs.mac m.devices)) [
    | inl old ↦ rw old (observe_known-Good env m obs true t)
    | inr new ↦
        let d = discover-Good env m obs t new in
        let m1 = (discover env m obs).0 in
        rw new (Good-trans _ m1.devices _ _ _ d (observe_known-Good env m1 obs false d.table))
  ])
]
