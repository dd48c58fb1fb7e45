-- ===== src/People/Presence/Runs/Replay.antt =====
-- src/people/mod.rs: the arrivals and departures of a person, replayed from the events alone.
use netgraspd.Base.{
  false, List, [], ◌∷◌, ◌++◌, Option, none, some, Text, ◌==◌, list_eq, nat_eq, ◌≡◌, refl, ◌∙◌,
  subst, Bool-cases, Option-cases, inl, inr, arith, All, if◌then◌else◌, ◌>>=◌, ==_iff,
}
use netgraspd.Base.Assoc.{lookup, lookup-insert}
use netgraspd.Types.Event.{EventType, person_arrived, person_departed, person_location_changed}
use netgraspd.People.{PersonState, home, away, Person, PersonEvent, Outcome, Registry}
use netgraspd.People.Views.{set_person}
use netgraspd.People.Presence.{Story}
use netgraspd.People.Presence.Change.{Change, quiet, moved, came, left, IsMove}
use netgraspd.People.Presence.InStep.{person_state}
use netgraspd.People.Presence.Runs.{Sighting, apply, run, Caused, apply-Caused}

-- What one event says of a person: only somebody away arrives, and only somebody home departs.
unfoldable pub next : PersonState → EventType → Option PersonState
next away person_arrived = some home
next home person_departed = some away
next s person_location_changed = some s
next _ _ = none

-- An event in the history of one person.
unfoldable pub told : Text → PersonState → PersonEvent → Option PersonState
told item s e = if e.item_id == item then next s e.event_type else some s

-- The history of one person. Nothing where the events are not a possible one.
unfoldable pub follow : Text → PersonState → List PersonEvent → Option PersonState
follow item s [] = some s
follow item s (e ∷ rest) = told item s e >>= λ t. follow item t rest

follow-append :
    (item : Text) (s t : PersonState) (xs ys : List PersonEvent)
    → follow item s xs ≡ some t
    → follow item s (xs ++ ys) ≡ follow item t ys
unfolding follow
follow-append item s t [] ys h = ground arith
follow-append item s t (x ∷ xs) ys h = elim (Option-cases (told item s x)) [
  | inl e ↦ absurd (ground arith)
  | inr (u, e) ↦ rw e (follow-append item u t xs ys (ground arith))
]

told-next :
    (item : Text) (s t : PersonState) (e : PersonEvent)
    → e.item_id ≡ item
    → next s e.event_type ≡ some t
    → told item s e ≡ some t
unfolding told
told-next item s t e h k = ground (arith, ==_iff e.item_id item)

told-apart :
    (item q : Text) (s : PersonState) (e : PersonEvent)
    → e.item_id ≡ item
    → (item == q) ≡ false
    → told q s e ≡ some s
unfolding told
told-apart item q s e h n = rw h rw n refl

told-moves : (item : Text) (s : PersonState) (e : PersonEvent) → IsMove e → told item s e ≡ some s
unfolding told next
told-moves item s e h = rw h ground arith

follow-moves :
    (item : Text) (s : PersonState) (events : List PersonEvent)
    → All IsMove events
    → follow item s events ≡ some s
unfolding follow
follow-moves item s [] h = refl
follow-moves item s (e ∷ rest) h = rw (told-moves item s e h.0) (follow-moves item s rest h.1)

follow-one :
    (item : Text) (s t : PersonState) (e : PersonEvent)
    → told item s e ≡ some t
    → follow item s (e ∷ []) ≡ some t
unfolding follow
follow-one item s t e h = rw h refl

-- The history of a person, from a state to that in a registry.
abbrev pub Ends : Text → PersonState → Registry → List PersonEvent → Type 0
Ends item s r events =
    (t : PersonState) × (person_state r item ≡ some t) × (follow item s events ≡ some t)

module _ (r : Registry) (item q : Text) (s : PersonState) (known : person_state r q ≡ some s) where
  same_state : (p : Person) → lookup q r.people ≡ some p → p.state ≡ s
  same_state p here = ground arith

  -- The person of a changed row.
  set_person-Ends :
      (p p' : Person) (events : List PersonEvent)
      → lookup item r.people ≡ some p
      → follow item p.state events ≡ some p'.state
      → ((item == q) ≡ false → follow q s events ≡ some s)
      → Ends q s (set_person r item p') events
  set_person-Ends p p' events h k n = elim (Bool-cases (item == q)) [
    | inl e ↦
        let q_is : item ≡ q = (list_eq.beq_iff item q).0 e in
        let here : lookup q r.people ≡ some p = subst (λ x. lookup x r.people ≡ some p) q_is h in
        let s_is : p.state ≡ s = same_state p here in
        (
          p'.state,
          rw (lookup-insert item q p' r.people) rw e refl,
          subst (λ x. follow q x events ≡ some p'.state) s_is
              (subst (λ x. follow x p.state events ≡ some p'.state) q_is k),
        )
    | inr e ↦ (s, rw (lookup-insert item q p' r.people) rw e known, n e)
  ]

  Change-Ends :
      {result : Registry × Outcome} → Change r item result → Ends q s result.0 result.1.events
  unfolding next follow
  Change-Ends quiet = (s, known, refl)
  Change-Ends (moved p p' events h k i m) =
      set_person-Ends p p' events h (rw k (follow-moves item p.state events m))
        (λ n. follow-moves q s events m)
  Change-Ends (came p p' e h k k' i t n) =
      set_person-Ends p p' (e ∷ []) h
        (follow-one item p.state p'.state e
          (told-next item p.state p'.state e n (rw k rw k' rw t refl)))
        (λ apart. follow-one q s s e (told-apart item q s e n apart))
  Change-Ends (left p p' e h k k' i t n) =
      set_person-Ends p p' (e ∷ []) h
        (follow-one item p.state p'.state e
          (told-next item p.state p'.state e n (rw k rw k' rw t refl)))
        (λ apart. follow-one q s s e (told-apart item q s e n apart))

module _ (json : Story → Text) where
  apply-Ends :
      (r : Registry) (q : Text) (s : PersonState) (sighting : Sighting)
      → person_state r q ≡ some s
      → Ends q s (apply json r sighting).0 (apply json r sighting).1.events
  unfolding Caused
  apply-Ends r q s sighting known =
      let c = apply-Caused json r sighting in Change-Ends c.0 c.1 q s (rw (c.2) known) (c.4)

  -- Whatever a run of sightings records of a person that the registry knows is a possible history
  -- of them: each arrival finds them away and each departure home, from the state that the run
  -- began with, and its last state is the one that the registry then has.
  pub follow-run :
      (ss : List Sighting) (r : Registry) (item : Text) (s : PersonState)
      → person_state r item ≡ some s
      → (t : PersonState) × (person_state (run json r ss).registry item ≡ some t)
        × (follow item s (run json r ss).events ≡ some t)
  unfolding run follow
  follow-run [] r item s known = (s, known, refl)
  follow-run (x ∷ rest) r item s known =
      let (t, now, told) = apply-Ends r item s x known in
      let (u, later, rest_told) = follow-run rest (apply json r x).0 item t now in
      (u, later, follow-append item s t (apply json r x).1.events _ told ∙ rest_told)
