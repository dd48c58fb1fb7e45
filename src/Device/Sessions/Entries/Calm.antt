-- ===== src/Device/Sessions/Entries/Calm.antt =====
-- What an entry's changes leave alone, and effects that open and close nothing.
use netgraspd.Base.{
  ◌||◌, ℕ, Bool, true, false, not, ◌≡◌, refl, ◌∙◌, List, [], ◌∷◌, ◌++◌, Option, none, some, Text,
  ◌==◌, arith, map, if◌then◌else◌,
}
use netgraspd.Types.{MacAddr, mac_eq, mac_beq_iff, Signal, Observation}
use netgraspd.Types.Event.{DeviceState, online, idle, offline}
use netgraspd.Identity.Scorer.{Identity}
use netgraspd.Device.Effect.{Effect, signal}
use netgraspd.Device.Entry.{Env, Entry, record_signals, rescore, adopt, candidate_of, reclassify}
use netgraspd.Device.Manager.Observe.{touch, revive, rename_effects}
use netgraspd.Device.Sessions.{Session, replay, replay-append, session_of, Tracks}

pub Tracks-trans :
    (e f g : Entry) (xs ys : List Effect) → Tracks e xs f → Tracks f ys g → Tracks e (xs ++ ys) g
Tracks-trans e f g xs ys a b = record {
  same_mac = b.same_mac ∙ a.same_mac;
  own = replay-append e.mac (session_of e) (session_of f) xs ys a.own ∙ (rw (← a.same_mac) b.own);
  other =
      λ mac s h. replay-append mac s s xs ys (a.other mac s h) ∙ b.other mac s (rw a.same_mac h);
}

-- A change that leaves address, state and place alone, with no effects.
pub still :
    (e f : Entry) → f.mac ≡ e.mac → f.state ≡ e.state → f.current_ap ≡ e.current_ap → Tracks e [] f
unfolding replay session_of
still e f m s p = record { same_mac = m; own = ground arith; other = λ mac t h. refl }

pub touch-Tracks : (obs : Observation) (e : Entry) → Tracks e [] (touch obs e)
unfolding touch
touch-Tracks obs e = still e _ refl refl refl

pub revive-Tracks :
    (env : Env) (learning : Bool) (obs : Observation) (e : Entry) (s : DeviceState)
    → e.state ≡ s
    → Tracks e (revive env learning obs e).1 (revive env learning obs e).0
unfolding revive replay session_of
revive-Tracks env learning obs e online h = record {
  same_mac = ground arith;
  own = ground arith;
  other = λ mac t k. ground arith;
}
revive-Tracks env learning obs e idle h = record {
  same_mac = ground arith;
  own = ground arith;
  other = λ mac t k. ground arith;
}
revive-Tracks env learning obs e offline h = record {
  same_mac = ground arith;
  own = ground (arith, mac_beq_iff e.mac e.mac);
  other = λ mac t k. ground arith;
}

-- Effects about one device that open and close nothing, given that its row is there.
abbrev pub Quiet : MacAddr → List Effect → Type 0
Quiet k xs =
    (mac : MacAddr) (s : Session) → (not (k == mac) || s.known) ≡ true → replay mac s xs ≡ some s

pub Tracks-Quiet :
    (e f : Entry) (xs : List Effect)
    → f.mac ≡ e.mac
    → f.state ≡ e.state
    → f.current_ap ≡ e.current_ap
    → Quiet e.mac xs
    → Tracks e xs f
unfolding session_of
Tracks-Quiet e f xs m s p q = record {
  same_mac = m;
  own = q e.mac (session_of e) (ground arith) ∙ ground arith;
  other = λ mac t h. q mac t (ground arith);
}

pub Quiet-append :
    (k : MacAddr) (xs ys : List Effect) → Quiet k xs → Quiet k ys → Quiet k (xs ++ ys)
Quiet-append k xs ys a b mac s h = replay-append mac s s xs ys (a mac s h) ∙ b mac s h

pub Quiet-signals :
    (mac : MacAddr) (at : ℕ) (ss : List Signal) → Quiet mac (map (λ s. signal mac s at) ss)
unfolding replay
Quiet-signals mac at [] k t h = refl
Quiet-signals mac at (s ∷ ss) k t h = ground (arith, Quiet-signals mac at ss k t h)

pub Quiet-rename :
    (k : MacAddr) (learning : Bool) (e : Entry) (o : Option Identity) (i : Option Text) (at : ℕ)
    (c : Option ℕ)
    → Quiet k (rename_effects learning e o i at c)
unfolding replay
Quiet-rename k learning e none i at c mac t h = refl
Quiet-rename k learning e (some p) i at c mac t h = refl

pub Quiet-if :
    (k : MacAddr) (b : Bool) (xs : List Effect) → Quiet k xs → Quiet k (if b then xs else [])
unfolding replay
Quiet-if k true xs q mac t h = q mac t h
Quiet-if k false xs q mac t h = refl

-- What rescoring and reclassifying leave alone.
pub record Keeps (e f : Entry) : Type 0 where
  pub keeps_mac : f.mac ≡ e.mac
  pub keeps_state : f.state ≡ e.state
  pub keeps_ap : f.current_ap ≡ e.current_ap

pub Keeps-trans : {e f g : Entry} → Keeps e f → Keeps f g → Keeps e g
Keeps-trans a b = ground arith

pub adopt-Keeps : (e : Entry) (c : Identity) (now : ℕ) → Keeps e (adopt e c now).0
unfolding adopt
adopt-Keeps e c now = ground arith

pub rescore-Keeps : (e : Entry) (now : ℕ) → Keeps e (rescore e now).0
unfolding rescore
rescore-Keeps e now = adopt-Keeps e (candidate_of e) now

pub record_signals-Keeps : (e : Entry) (ss : List Signal) → Keeps e (record_signals e ss).0
unfolding record_signals
record_signals-Keeps e ss = ground arith

pub reclassify-Keeps : (env : Env) (e : Entry) (now : ℕ) → Keeps e (reclassify env e now).0
unfolding reclassify
reclassify-Keeps env e now = ground arith
