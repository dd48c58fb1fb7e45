-- ===== src/Lib.antt =====
-- netgraspd: a passive monitor of a local network. Capture threads turn packets into observations;
-- a filter drops repeats; analyzers look for attacks; the device state machine keeps one entry for
-- each hardware address and answers each input with effects, which the daemon writes to the
-- database and hands to the notifiers.
--
-- The parts that are modelled, and the files that model them:
--   src/types.rs            Types and below: Types.Mac (addresses and their text), Types.Net,
--                           Types.Evidence (signals, weights, claims), Types.Event,
--                           Types.Observed
--   src/device/mod.rs       Device and below: Device.Entry (one device), Device.Manager (the
--                           table, attribution), Device.Manager.Observe, Device.Manager.Sweep,
--                           Device.Manager.Feeds (settings, places, people, alerts),
--                           Device.Manager.Restore,
--                           Device.Effect
--   src/identity/scorer.rs  Identity.Scorer
--   src/identity/oui.rs     Identity.Oui
--   src/identity/classify.rs, the types that the state machine reads: Identity.Classification
--   src/config.rs           Config and below, for the values that these parts read: Config.Timeouts,
--                           Config.Notifying (quiet hours, the dispatcher's settings),
--                           Config.Duration and Config.Clock (their text), on the decimal numbers
--                           of Config.Numbers; Config.Security (the analyzers' settings and
--                           their validation)
--   src/location/mod.rs     Location
--   src/people/mod.rs       People (the registry, outcomes and merge), People.Views (what is read
--                           off the devices), People.Presence (devices that come, go and move),
--                           People.Reconcile (reconcile, owners, Roster.into_registry)
--   src/notify/mod.rs       Notify (the dispatcher)
--   src/capture/dedup.rs    Capture.Dedup
--   src/capture/dns.rs      Capture.Dns
--   src/analyze/window.rs   Analyze.Window
--   src/analyze/gateway.rs  Analyze.Gateway
--   src/analyze/mod.rs      Analyze.Detector (context, cooldown, exemption), Analyze.Chain
--                           (observe, reclassified) and Analyze.Chain.Setup (Chain::new)
--   src/analyze/arp_scan.rs, arp_spoof.rs, gratuitous_arp.rs, identity_change.rs, ip_conflict.rs
--   and rogue_dhcp.rs beside it
--                           Analyze.ArpScan, ArpSpoof, GratuitousArp, IdentityChange, IpConflict
--                           and RogueDhcp, whose analyze is a function of the context, the
--                           stimulus and the detector's state
--
-- Conventions. A method that changes its object is a function to the new object, with what it
-- returns beside it; the names are those of the source. Machine.Input and Device.Machine.run are
-- the daemon's loop over the state machine: one input, one step, the effects in order. The events
-- of people and the alerts of the analyzers, which the daemon has the machine record, are inputs
-- beside the observations. A hash map is an association list with one entry for each key
-- (Base.Assoc), whose order no theorem uses. A timestamp is a number of nanoseconds since the epoch and a duration one of nanoseconds (Time); a
-- signed difference is taken apart by its sign where the source does. Weights and confidences are
-- in hundredths. Text is a list of code points. Counters that the source keeps in 64 bits are
-- unbounded; the count of offline transitions saturates at 32 bits as the source's does. JSON
-- details of an event are a data type (Device.Effect.Details). Every loop runs over a list that is
-- there or a count that is given, but for the one that follows a DNS name (Capture.Dns.walk), which
-- runs on fuel: a turn for each label and each pointer that the limits allow and one to stop, after
-- which it has always returned. People.Presence.Runs.run and Notify.Runs.run are the daemon's calls
-- of the registry and of the dispatcher, in order.
--
-- Parameters. Device.Entry.Env has what the state machine takes from elsewhere: the classifier and
-- the vendor registry, as any functions, and the standard library's text of an address, of which
-- reading undoes writing. The hasher of the filter, the conversion of a duration by chrono, the
-- lower case of a text, the lossy text of bytes, the reader of an IPv4 address and the JSON text of
-- an alert's or a person's details are arguments of the definitions that use them; those of the
-- detectors are together in Analyze.Chain.Outside.
--
-- The session model (Device.Sessions) says what the effects mean to the database: a row is made
-- once, a presence session and a location stay are each open at most once, and are closed only
-- when open. It is written from the tables, not from the state machine.
--
-- Not modelled: the packet parsers other than the DNS reader, the rules of the classifier, the
-- enrichers, maintenance and the command line, which are parts of their own; the notification
-- transport, the database access, the network, the daemon's threads and the log lines, which are
-- input and output.
pub mod Base
pub mod Types
pub mod Time
pub mod Identity
pub mod Config
pub mod Location
pub mod People
pub mod Device
pub mod Notify
pub mod Capture
pub mod Analyze
