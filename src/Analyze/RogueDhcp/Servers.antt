-- ===== src/Analyze/RogueDhcp/Servers.antt =====
-- src/analyze/rogue_dhcp.rs: the servers behind an alert.
use netgraspd.Base.{
  ◌≤◌, ◌≡◌, refl, sym, ◌∙◌, subst, Bool, true, false, ◌&&◌, Option, none, some, List, [], ◌∷◌, Text,
  ◌==◌, option_eq, length, contains, if◌then◌else◌, arith, Bool-cases, inl, inr, is_none,
}
use netgraspd.Base.Assoc.{lookup}
use netgraspd.Types.Mac.{MacAddr, mac_eq}
use netgraspd.Types.Net.{IpAddr}
use netgraspd.Types.Evidence.{is_empty}
use netgraspd.Types.Event.{is_server_message}
use netgraspd.Types.Observed.{Observation, DhcpDetail, dhcp_detail}
use netgraspd.Analyze.Detector.{Context, heard, cooled_down}
use netgraspd.Analyze.RogueDhcp.{
  RogueDhcp, RogueDetails, new_rogue, is_legitimate, hear_server, rogue_detail, rogue,
  rogue_cooldown,
}

-- The message is one that only a server sends.
abbrev pub is_served : Option DhcpDetail → Bool
is_served none = false
is_served (some d) = is_server_message d.message_type

abbrev or_earlier : Option MacAddr → Observation → Option MacAddr
or_earlier (some m) o = some m
or_earlier none o = if is_served (dhcp_detail o) then some o.mac else none

-- The first device that sent such a message, in a history that has the newest first.
abbrev pub first_server : List Observation → Option MacAddr
first_server [] = none
first_server (o ∷ earlier) = or_earlier (first_server earlier) o

-- A learned server is the first one, and every first one is learned where none is configured.
abbrev Learned : List Observation → RogueDhcp → Type 0
Learned history a = is_empty a.configured ≡ true → a.learned ≡ first_server history

unserved :
    (o : Observation) (l : Option MacAddr) → is_served (dhcp_detail o) ≡ false → or_earlier l o ≡ l
unserved o none h = rw h refl
unserved o (some m) h = refl

stays_first :
    (o : Observation) (l f : Option MacAddr) → l ≡ f → is_none l ≡ false → l ≡ or_earlier f o
stays_first o none f e n = absurd (ground arith)
stays_first o (some m) f e n = rw (← e) refl

becomes_first :
    (o : Observation) (l f : Option MacAddr)
    → l ≡ f
    → is_none l ≡ true
    → is_served (dhcp_detail o) ≡ true
    → some o.mac ≡ or_earlier f o
becomes_first o none f e n s = rw (← e, s) refl
becomes_first o (some m) f e n s = absurd (ground arith)

Learned-unserved :
    (o : Observation) (history : List Observation) (a : RogueDhcp)
    → is_served (dhcp_detail o) ≡ false
    → Learned history a
    → Learned (o ∷ history) a
Learned-unserved o history a s h empty = h empty ∙ sym (unserved o (first_server history) s)

-- A rogue server: not one of the configured ones, where there are any, and where there are none,
-- another than the first server.
abbrev pub Foreign : List MacAddr → List Observation → MacAddr → Type 0
Foreign configured history m =
    (is_empty configured ≡ false → contains configured m ≡ false)
    × (is_empty configured ≡ true
        → (first : MacAddr) × (first_server history ≡ some first) × ((first == m) ≡ false))

module _ (show : IpAddr → Text) (render : RogueDetails → Text) (c : Context) (o : Observation) where
  known_legitimate :
      (a : RogueDhcp)
      → is_empty a.configured ≡ true
      → is_legitimate a o.mac ≡ true
      → is_none a.learned ≡ false
  unfolding is_legitimate
  known_legitimate a empty f = ground arith

  still_first :
      (history : List Observation) (a : RogueDhcp)
      → Learned history a
      → is_empty a.configured ≡ true
      → (is_empty a.configured && is_none a.learned) ≡ false
      → a.learned ≡ or_earlier (first_server history) o
  still_first history a h empty g =
      stays_first o a.learned (first_server history) (h empty) (ground arith)

  hear_server-Learned :
      (d : DhcpDetail) (history : List Observation) (a : RogueDhcp)
      → dhcp_detail o ≡ some d
      → is_server_message d.message_type ≡ true
      → Learned history a
      → Learned (o ∷ history) (hear_server show render c o d a).0
        × ((hear_server show render c o d a).0.configured ≡ a.configured)
  unfolding hear_server
  hear_server-Learned d history a e s h = elim (Bool-cases (is_legitimate a o.mac)) [
    | inl f ↦ rw f (
      λ empty.
          stays_first o a.learned (first_server history) (h empty) (known_legitimate a empty f),
      refl,
    )
    | inr f ↦ rw f elim (Bool-cases (is_empty a.configured && is_none a.learned)) [
      | inl g ↦ rw g (
        λ empty. becomes_first o a.learned (first_server history) (h empty) (ground arith) (rw e s),
        refl,
      )
      | inr g ↦
          rw g
            elim (Bool-cases (cooled_down (lookup o.mac a.alerted) o.observed_at rogue_cooldown)) [
              | inl k ↦ rw k (λ empty. still_first history a h empty g, refl)
              | inr k ↦ rw k (λ empty. still_first history a h empty g, refl)
            ]
    ]
  ]

  other_server :
      (l f : Option MacAddr)
      → l ≡ f
      → is_none l ≡ false
      → (l == some o.mac) ≡ false
      → (first : MacAddr) × (f ≡ some first) × ((first == o.mac) ≡ false)
  other_server none f h n e = absurd (ground arith)
  other_server (some m) f h n e = (m, sym h, e)

  hear_server-Foreign :
      (d : DhcpDetail) (history : List Observation) (a : RogueDhcp)
      → Learned history a
      → 1 ≤ length (hear_server show render c o d a).1
      → Foreign a.configured history o.mac
  unfolding hear_server is_legitimate
  hear_server-Foreign d history a h l = (
    λ configured. ground (arith, l),
    λ empty.
        other_server a.learned (first_server history) (h empty) (ground (arith, l))
          (ground (arith, l)),
  )

  detail-Learned :
      (od : Option DhcpDetail) (history : List Observation) (a : RogueDhcp)
      → dhcp_detail o ≡ od
      → Learned history a
      → Learned (o ∷ history) (rogue_detail show render c o od a).0
        × ((rogue_detail show render c o od a).0.configured ≡ a.configured)
  unfolding rogue_detail
  detail-Learned none history a e h = (Learned-unserved o history a (rw e refl) h, refl)
  detail-Learned (some d) history a e h = elim (Bool-cases (is_server_message d.message_type)) [
    | inl s ↦ rw s (hear_server-Learned d history a e s h)
    | inr s ↦ rw s (Learned-unserved o history a (rw e s) h, refl)
  ]

  -- An alert is about a server.
  abbrev Reported : List MacAddr → List Observation → Type 0
  Reported configured history =
      (is_served (dhcp_detail o) ≡ true) × Foreign configured history o.mac

  detail-Reported :
      (od : Option DhcpDetail) (history : List Observation) (a : RogueDhcp)
      → dhcp_detail o ≡ od
      → Learned history a
      → 1 ≤ length (rogue_detail show render c o od a).1
      → Reported a.configured history
  unfolding rogue_detail
  detail-Reported none history a e h l = absurd (omega arith)
  detail-Reported (some d) history a e h l = elim (Bool-cases (is_server_message d.message_type)) [
    | inl s ↦ (
      rw e s,
      hear_server-Foreign d history a h
          (subst (λ b. 1 ≤ length (if b then hear_server show render c o d a else (a, [])).1) s l),
    )
    | inr s ↦ absurd (
        omega (
          arith,
          subst (λ b. 1 ≤ length (if b then hear_server show render c o d a else (a, [])).1) s l,
        ))
  ]

module _ (show : IpAddr → Text) (render : RogueDetails → Text) where
  -- The state after some traffic, newest first.
  unfoldable pub after_traffic : List (Context × Observation) → RogueDhcp → RogueDhcp
  after_traffic [] a = a
  after_traffic ((c, o) ∷ earlier) a = (rogue show render c o (after_traffic earlier a)).0

  after_traffic-Learned :
      (traffic : List (Context × Observation)) (a : RogueDhcp)
      → a.learned ≡ none
      → Learned (heard traffic) (after_traffic traffic a)
        × ((after_traffic traffic a).configured ≡ a.configured)
  unfolding after_traffic rogue
  after_traffic-Learned [] a h = (λ empty. h, refl)
  after_traffic-Learned ((c, o) ∷ earlier) a h =
      let (learned, configured) = after_traffic-Learned earlier a h in
      let (l, k) =
        detail-Learned show render c o (dhcp_detail o) (heard earlier) (after_traffic earlier a)
          refl learned in
      (l, k ∙ configured)

  -- A rogue server that is reported is one: if, after any traffic, an observation makes the
  -- detector raise an alert, then it is a message that only a DHCP server sends, from a device that
  -- is not one of the configured servers where there are any, and where there are none, is not the
  -- device that sent the first such message of the traffic.
  pub rogue-Foreign :
      (c : Context) (o : Observation) (traffic : List (Context × Observation)) (servers : List Text)
      → 1 ≤ length (rogue show render c o (after_traffic traffic (new_rogue servers))).1
      → (is_served (dhcp_detail o) ≡ true)
        × Foreign (new_rogue servers).configured (heard traffic) o.mac
  unfolding rogue new_rogue
  rogue-Foreign c o traffic servers l =
      let (learned, configured) = after_traffic-Learned traffic (new_rogue servers) refl in
      subst (λ s. (is_served (dhcp_detail o) ≡ true) × Foreign s (heard traffic) o.mac) configured
        (detail-Reported show render c o (dhcp_detail o) (heard traffic)
          (after_traffic traffic (new_rogue servers)) refl learned l)
