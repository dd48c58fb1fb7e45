-- ===== src/Analyze/Chain.antt =====
-- src/analyze/mod.rs: the detectors, run one after the other over the same context.
pub mod Exempt
pub mod Setup
use netgraspd.Base.{ℕ, Bool, true, false, Option, List, [], ◌∷◌, ◌++◌, Text, if◌then◌else◌}
use netgraspd.Types.Net.{IpAddr}
use netgraspd.Types.Observed.{Observation}
use netgraspd.Device.Manager.{Reclassification}
use netgraspd.Device.Manager.Feeds.{SecurityAlert}
use netgraspd.Analyze.Gateway.{observe_gateway}
use netgraspd.Analyze.Detector.{Context, retain}
use netgraspd.Analyze.ArpScan.{ArpScan, ScanDetails, scan}
use netgraspd.Analyze.ArpSpoof.{ArpSpoof, SpoofDetails, spoof}
use netgraspd.Analyze.RogueDhcp.{RogueDhcp, RogueDetails, rogue}
use netgraspd.Analyze.IpConflict.{IpConflict, ConflictDetails, conflict}
use netgraspd.Analyze.GratuitousArp.{GratuitousArp, AnnouncementDetails, gratuitous}
use netgraspd.Analyze.IdentityChange.{IdentityChange, ChangeDetails, identity_changed}

-- What the detectors take from other crates.
pub record Outside : Type 0 where
  pub from_std : ℕ → Option ℕ
  pub show : IpAddr → Text
  pub render_scan : ScanDetails → Text
  pub render_spoof : SpoofDetails → Text
  pub render_rogue : RogueDetails → Text
  pub render_conflict : ConflictDetails → Text
  pub render_announcement : AnnouncementDetails → Text
  pub render_change : ChangeDetails → Text

pub data Stimulus : Type 0 where
  observed : Observation → Stimulus
  reclassified : Reclassification → Stimulus

-- `Box<dyn Analyzer>`
pub data Analyzer : Type 0 where
  scanning : ArpScan → Analyzer
  spoofing : ArpSpoof → Analyzer
  serving : RogueDhcp → Analyzer
  sharing : IpConflict → Analyzer
  announcing : GratuitousArp → Analyzer
  changing : IdentityChange → Analyzer

pub record Chain : Type 0 where
  pub analyzers : List Analyzer
  pub context : Context
  pub enabled : Bool

-- What is left of an analyzer, and its alerts.
abbrev pub again {ℓ} :
    {A : Type ℓ} → (A → Analyzer) → A × List SecurityAlert → Analyzer × List SecurityAlert
again f (a, alerts) = (f a, alerts)

module _ (outside : Outside) where
  -- `Analyzer::analyze`, of each kind.
  unfoldable pub analyze : Context → Stimulus → Analyzer → Analyzer × List SecurityAlert
  analyze c (observed o) (scanning a) =
      again scanning (scan outside.from_std outside.render_scan c o a)
  analyze c (observed o) (spoofing a) =
      again spoofing (spoof outside.show outside.render_spoof c o a)
  analyze c (observed o) (serving a) = again serving (rogue outside.show outside.render_rogue c o a)
  analyze c (observed o) (sharing a) =
      again sharing (conflict outside.show outside.render_conflict c o a)
  analyze c (observed o) (announcing a) =
      again announcing (gratuitous outside.from_std outside.show outside.render_announcement c o a)
  analyze c (observed o) (changing a) = (changing a, [])
  analyze c (reclassified x) (changing a) =
      again changing (identity_changed outside.render_change c x a)
  analyze c (reclassified x) a = (a, [])

  unfoldable pub analyze_all :
      Context → Stimulus → List Analyzer → List Analyzer × List SecurityAlert
  analyze_all c s [] = ([], [])
  analyze_all c s (a ∷ rest) =
      let first = analyze c s a in
      let later = analyze_all c s rest in (first.0 ∷ later.0, first.1 ++ later.1)

  -- `Chain::run`
  unfoldable pub run_chain : Chain → Stimulus → Chain × List SecurityAlert
  run_chain ch s =
      let all = analyze_all ch.context s ch.analyzers in
      (record ch { analyzers = all.0 }, retain ch.context all.1)

  -- The tracker learns before the analyzers run.
  unfoldable pub learn : Chain → Observation → Chain
  learn ch o = record ch {
    context = record (ch.context) { gateway = observe_gateway o ch.context.gateway };
  }

  -- `Chain::observe`
  unfoldable pub observe_chain : Chain → Observation → Chain × List SecurityAlert
  observe_chain ch o = if ch.enabled then run_chain (learn ch o) (observed o) else (ch, [])

  -- `Chain::reclassified`
  unfoldable pub reclassified_chain : Chain → Reclassification → Chain × List SecurityAlert
  reclassified_chain ch x = if ch.enabled then run_chain ch (reclassified x) else (ch, [])
