-- ===== src/Device/Entry/Settle.antt =====
-- `Entry::rescore`: a name of higher rank is adopted at once, and one of equal rank once it has
-- been the winner without a break for the settle window.
pub mod History
use netgraspd.Base.{
  ℕ, ◌+◌, ◌≤◌, ◌<◌, ◌≡◌, refl, subst, sym, ◌∙◌, ◌⊎◌, inl, inr, Bool, true, false, List, [], ◌∷◌,
  ◌++◌, Option, none, some, Text, ◌==◌, list_eq, nat_eq, list_beq_iff, All, Bool-cases, ltb, arith,
}
use netgraspd.Identity.Scorer.{Identity, compare, settled, settle_window}
use netgraspd.Device.Entry.{Entry, run_start, adopt}

-- A run of rescorings, each with the candidate that the scorer picked and its time.
pub rescores : Entry → List (Identity × ℕ) → Entry
rescores e [] = e
rescores e ((c, t) ∷ cs) = rescores (adopt e c t).0 cs

-- The rank of a device's identity never falls: whatever the scorer picks, the confidence after a
-- rescoring is at least the confidence before it.
pub adopt_rank :
    (e : Entry) (c : Identity) (now : ℕ)
    → e.identity.confidence ≤ (adopt e c now).0.identity.confidence
unfolding adopt compare
adopt_rank e c now = ground arith

-- A rescoring picked this name, at this rank.
abbrev pub Named : Text → ℕ → Identity → Type 0
Named n rank c = (c.display_name ≡ n) × (c.confidence ≡ rank)

pending_is : Option (Identity × ℕ) → Text → Bool
pending_is none n = true
pending_is (some (p, since)) n = p.display_name == n

adopt_waits :
    (e : Entry) (c : Identity) (now : ℕ) (o : Option (Identity × ℕ)) (last : Text)
    → e.pending_identity ≡ o
    → pending_is o last ≡ true
    → (last == c.display_name) ≡ false
    → c.confidence ≤ e.identity.confidence
    → ((adopt e c now).0.identity ≡ e.identity)
      × (pending_is (adopt e c now).0.pending_identity c.display_name ≡ true)
unfolding adopt compare settled run_start pending_is
adopt_waits e c now none last h p d r = ground (arith, list_beq_iff c.display_name c.display_name)
adopt_waits e c now (some (q, since)) last h p d r = ground (
  arith,
  list_beq_iff c.display_name c.display_name,
  list_beq_iff q.display_name last,
  list_beq_iff q.display_name c.display_name,
  list_beq_iff last c.display_name,
)

abbrev pub Alternates : Text → List (Identity × ℕ) → Type 0
Alternates last [] = Unit {0}
Alternates last ((c, t) ∷ cs) = ((last == c.display_name) ≡ false) × Alternates c.display_name cs

rescores_wait :
    (e : Entry) (last : Text) (cs : List (Identity × ℕ))
    → pending_is e.pending_identity last ≡ true
    → Alternates last cs
    → All (λ c. c.0.confidence ≤ e.identity.confidence) cs
    → (rescores e cs).identity ≡ e.identity
unfolding rescores
rescores_wait e last [] p a r = refl
rescores_wait e last ((c, t) ∷ cs) p a r =
    let (kept, pends) = adopt_waits e c t e.pending_identity last refl p a.0 r.0 in
    rescores_wait (adopt e c t).0 c.display_name cs pends a.1 (rw (kept) r.1) ∙ kept

-- Names that take turns never settle: if no candidate of a run outranks the device's name and no
-- two in a row have the same name, then the device keeps its identity, however long the run is.
pub rescores_alternating :
    (e : Entry) (first : Text) (cs : List (Identity × ℕ))
    → e.pending_identity ≡ none
    → Alternates first cs
    → All (λ c. c.0.confidence ≤ e.identity.confidence) cs
    → (rescores e cs).identity ≡ e.identity
rescores_alternating e first cs p a r =
    rescores_wait e first cs (rw p (unfold pending_is in refl)) a r

-- The name is adopted, or has been pending since the given time.
abbrev Settling : Text → ℕ → ℕ → Entry → Type 0
Settling n rank since e =
    (e.identity.confidence ≡ rank)
    × ((e.identity.display_name ≡ n)
        ⊎ ((p : Identity) × (e.pending_identity ≡ some (p, since)) × (p.display_name ≡ n)))

adopt_same :
    (e : Entry) (c : Identity) (t : ℕ)
    → c.confidence ≡ e.identity.confidence
    → c.display_name ≡ e.identity.display_name
    → (adopt e c t).0.identity ≡ e.identity
unfolding adopt compare
adopt_same e c t r d = ground (arith, list_beq_iff c.display_name e.identity.display_name)

adopt_first :
    (n : Text) (rank : ℕ) (e : Entry) (c : Identity) (t : ℕ)
    → e.pending_identity ≡ none
    → e.identity.confidence ≡ rank
    → Named n rank c
    → Settling n rank t (adopt e c t).0
unfolding adopt compare settled run_start
adopt_first n rank e c t p r (d, k) =
    elim (Bool-cases (c.display_name == e.identity.display_name)) [
      | inl same ↦
          (ground arith, inl (ground (arith, list_beq_iff c.display_name e.identity.display_name)))
      | inr other ↦ (ground arith, inr (c, ground arith, d))
    ]

adopt_runs :
    (n : Text) (rank since : ℕ) (e : Entry) (c p : Identity) (t : ℕ)
    → e.identity.confidence ≡ rank
    → e.pending_identity ≡ some (p, since)
    → p.display_name ≡ n
    → c.display_name ≡ n
    → c.confidence ≡ rank
    → (c.display_name == e.identity.display_name) ≡ false
    → Settling n rank since (adopt e c t).0
unfolding adopt compare run_start
adopt_runs n rank since e c p t r pends pn d k other =
    let run = (list_beq_iff p.display_name c.display_name).1 (pn ∙ sym d) in
    elim (Bool-cases (settled since t)) [
      | inl late ↦ (ground arith, inl (ground arith))
      | inr early ↦ (ground arith, inr (c, ground arith, d))
    ]

adopt_goes_on :
    (n : Text) (rank since : ℕ) (e : Entry) (c : Identity) (t : ℕ)
    → Settling n rank since e
    → Named n rank c
    → Settling n rank since (adopt e c t).0
adopt_goes_on n rank since e c t (r, inl done) (d, k) =
    let same = adopt_same e c t (k ∙ sym r) (d ∙ sym done) in (rw same r, inl (rw same done))
adopt_goes_on n rank since e c t (r, inr (p, pends, pn)) (d, k) =
    elim (Bool-cases (c.display_name == e.identity.display_name)) [
      | inl same ↦
          let names = (list_beq_iff c.display_name e.identity.display_name).0 same in
          let kept = adopt_same e c t (k ∙ sym r) names in (rw kept r, inl (rw (kept, ← names) d))
      | inr other ↦ adopt_runs n rank since e c p t r pends pn d k other
    ]

adopt_settled :
    (n : Text) (rank since : ℕ) (e : Entry) (c : Identity) (t : ℕ)
    → Settling n rank since e
    → Named n rank c
    → since + settle_window ≤ t
    → (adopt e c t).0.identity.display_name ≡ n
unfolding adopt compare settled run_start
adopt_settled n rank since e c t (r, inl done) (d, k) late =
    rw (adopt_same e c t (k ∙ sym r) (d ∙ sym done)) done
adopt_settled n rank since e c t (r, inr (p, pends, pn)) (d, k) late =
    let run = (list_beq_iff p.display_name c.display_name).1 (pn ∙ sym d) in
    ground (arith, list_beq_iff c.display_name e.identity.display_name)

rescores-append :
    (e : Entry) (xs ys : List (Identity × ℕ)) → rescores e (xs ++ ys) ≡ rescores (rescores e xs) ys
unfolding rescores
rescores-append e [] ys = refl
rescores-append e ((c, t) ∷ xs) ys = rescores-append (adopt e c t).0 xs ys

rescores_go_on :
    (n : Text) (rank since : ℕ) (e : Entry) (cs : List (Identity × ℕ))
    → Settling n rank since e
    → All (λ c. Named n rank c.0) cs
    → Settling n rank since (rescores e cs)
unfolding rescores
rescores_go_on n rank since e [] s a = s
rescores_go_on n rank since e ((c, t) ∷ cs) s a =
    rescores_go_on n rank since (adopt e c t).0 cs (adopt_goes_on n rank since e c t s a.0) a.1

-- A device that somebody renames gets its new name: if every candidate of a run has the same name
-- and the rank of the identity, nothing is pending when the run begins, and its last rescoring
-- comes at least a settle window after its first, then the device has that name at the end.
pub rescores_settle :
    (e : Entry) (n : Text) (first last : Identity) (t0 t : ℕ) (cs : List (Identity × ℕ))
    → e.pending_identity ≡ none
    → All (λ c. Named n e.identity.confidence c.0) ((first, t0) ∷ (last, t) ∷ cs)
    → t0 + settle_window ≤ t
    → (rescores e ((first, t0) ∷ (cs ++ ((last, t) ∷ [])))).identity.display_name ≡ n
unfolding rescores
rescores_settle e n first last t0 t cs p (a, (b, more)) late =
    let rank = e.identity.confidence in
    let e' = (adopt e first t0).0 in
    rw (rescores-append e' cs ((last, t) ∷ [])) (
      adopt_settled n rank t0 (rescores e' cs) last t
        (rescores_go_on n rank t0 e' cs (adopt_first n rank e first t0 p refl a) more) b late)
