-- ===== src/Device/Merging.antt =====
-- What the database hands down, and what the table hands up.
use netgraspd.Base.{◌≡◌, refl, List, [], ◌∷◌, arith, list_eq, option_eq, nat_eq, option_beq_iff}
use netgraspd.Types.{MacAddr}
use netgraspd.Device.Entry.{Entry}
use netgraspd.Device.Manager.{Manager}
use netgraspd.Device.Manager.Sweep.{flush_entry, flush_devices, take_dirty}
use netgraspd.Device.Manager.Feeds.{UserSettings, apply_display_name, apply_notify, apply_settings}

-- Merging a user's settings sets the two columns that the table keeps to the values of the
-- database and leaves the rest of the entry alone, the dirty flag included; and merging the same
-- settings again reports no change.
pub apply_settings_merges :
    (e : Entry) (s : UserSettings)
    → ((apply_settings e s).0 ≡ record e { display_name = s.display_name; notify = s.notify })
      × (apply_settings (apply_settings e s).0 s ≡ ((apply_settings e s).0, []))
unfolding apply_settings apply_display_name apply_notify
apply_settings_merges e s =
    let named = option_beq_iff e.display_name s.display_name in
    let self = option_beq_iff s.display_name s.display_name in
    (ground (arith, named, self), ground (arith, named, self))

flush_devices_twice :
    (d : List (MacAddr × Entry)) → flush_devices (flush_devices d).0 ≡ ((flush_devices d).0, [])
unfolding flush_devices flush_entry
flush_devices_twice [] = refl
flush_devices_twice ((k, e) ∷ rest) = ground (arith, flush_devices_twice rest)

-- A flush hands each changed device up once: after it, a second flush returns nothing and changes
-- nothing.
pub take_dirty_twice : (m : Manager) → take_dirty (take_dirty m).0 ≡ ((take_dirty m).0, [])
unfolding take_dirty
take_dirty_twice m = ground (arith, flush_devices_twice m.devices)
