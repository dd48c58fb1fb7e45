-- ===== src/Device/Learning/Notices.antt =====
-- What a notifier is told of while a learning window is open.
use netgraspd.Base.{
  append_assoc, ℕ, Bool, true, false, ◌||◌, List, [], ◌∷◌, ◌++◌, ◌≡◌, refl, sym, ap, ◌∙◌, arith,
}
use netgraspd.Types.{MacAddr}
use netgraspd.Types.Event.{EventType, is_security}
use netgraspd.Device.Effect.{DeviceEvent, deliverable, Effect, event}
use netgraspd.Device.Machine.{Input, visited, alerted}
use netgraspd.Device.Learning.Silence.{announced, Silent}

-- An input that another component has made of people or of an attack.
abbrev pub reports : Input → Bool
reports i = elim i [ visited p ↦ true | alerted a ↦ true | _ ↦ false ]

-- What a notice is about: the kind of event, the device and the time.
abbrev pub Notice : Type 0
Notice = EventType × MacAddr × ℕ

-- The notices of the effects that a notifier may be told of, in order.
abbrev notice_if : Bool → DeviceEvent → List Notice
notice_if true e = (e.event_type, e.mac, e.at) ∷ []
notice_if false e = []

abbrev pub notices_of : Effect → List Notice
notices_of x = elim x [ event e ↦ notice_if (deliverable e) e | _ ↦ [] ]

unfoldable pub notices : List Effect → List Notice
notices [] = []
notices (x ∷ xs) = notices_of x ++ notices xs

-- The notices that the inputs themselves call for: one for each attack, and one for each event of a
-- person whose notifications are on, or whose kind is that of an attack.
abbrev notice_due : Bool → EventType → MacAddr → ℕ → List Notice
notice_due true k mac at = (k, mac, at) ∷ []
notice_due false k mac at = []

abbrev pub due_of : Input → List Notice
due_of i = elim i [
  | visited p ↦ notice_due (p.notify || is_security p.event_type) p.event_type p.mac p.at
  | alerted a ↦ (a.event_type, a.mac, a.at) ∷ []
  | _ ↦ []
]

unfoldable pub due : List Input → List Notice
due [] = []
due (i ∷ is) = due_of i ++ due is

pub notices-append : (xs ys : List Effect) → notices (xs ++ ys) ≡ notices xs ++ notices ys
unfolding notices
notices-append [] ys = refl
notices-append (x ∷ xs) ys =
    rw (notices-append xs ys) (sym (append_assoc (notices_of x) (notices xs) (notices ys)))

told_nothing : (x : Effect) → announced x ≡ false → notices_of x ≡ []
told_nothing (event e) h = rw h refl
told_nothing x h = refl

pub Silent-notices : (xs : List Effect) → Silent xs → notices xs ≡ []
unfolding notices
Silent-notices [] s = refl
Silent-notices (x ∷ xs) s =
    rw (told_nothing x (ground arith), Silent-notices xs (ground arith)) refl

due_notice :
    (b : Bool) (e : DeviceEvent) → notice_if b e ++ [] ≡ notice_due b e.event_type e.mac e.at
due_notice true e = refl
due_notice false e = refl

-- An event outside the window.
pub event_notices :
    (e : DeviceEvent)
    → e.during_learning ≡ false
    → notices (event e ∷ [])
      ≡ notice_due (e.notify || is_security e.event_type) e.event_type e.mac e.at
unfolding notices deliverable
event_notices e l =
    let spoken : deliverable e ≡ (e.notify || is_security e.event_type) = ground arith in
    due_notice (deliverable e) e ∙ ap (λ b. notice_due b e.event_type e.mac e.at) spoken
