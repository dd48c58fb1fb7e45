-- ===== src/Device/Entry/Settle/History.antt =====
-- `Entry::rescore`: what a reported rename rests on in the rescorings before it.
use netgraspd.Base.{
  ℕ, ◌+◌, ◌≤◌, ◌<◌, ◌≡◌, refl, subst, sym, ◌⊎◌, inl, inr, true, List, [], ◌∷◌, Option, none, some,
  Text, ◌==◌, list_eq, nat_eq, list_beq_iff, Bool-cases, ltb, arith,
}
use netgraspd.Identity.Scorer.{Identity, compare, settled, settle_window}
use netgraspd.Device.Entry.{Entry, run_start, adopt}
use netgraspd.Device.Entry.Settle.{Named}

-- The entry after a history of rescorings, which has the newest first.
unfoldable pub after_scores : Entry → List (Identity × ℕ) → Entry
after_scores e [] = e
after_scores e ((c, t) ∷ earlier) = (adopt (after_scores e earlier) c t).0

-- The newest rescorings of a history, back to one at the given time, all picked this name at this
-- rank.
unfoldable pub Unchallenged : Text → ℕ → ℕ → List (Identity × ℕ) → Type 0
Unchallenged n rank since [] = ⊥
Unchallenged n rank since ((c, t) ∷ earlier) =
    Named n rank c × ((t ≡ since) ⊎ Unchallenged n rank since earlier)

-- What a rescoring leaves pending is its own candidate.
adopt_pends :
    (e : Entry) (c p : Identity) (now since : ℕ)
    → (adopt e c now).0.pending_identity ≡ some (p, since)
    → (p ≡ c)
      × (since ≡ run_start e.pending_identity c now)
      × ((adopt e c now).0.identity ≡ e.identity)
      × (c.confidence ≡ e.identity.confidence)
unfolding adopt compare
adopt_pends e c p now since h = (ground arith, ground arith, ground arith, ground arith)

start_same :
    (p : Identity) (since : ℕ) (c : Identity) (now : ℕ)
    → (p.display_name == c.display_name) ≡ true
    → run_start (some (p, since)) c now ≡ since
unfolding run_start
start_same p since c now same = rw same refl

start-Unchallenged :
    (o : Option (Identity × ℕ)) (c : Identity) (now rank : ℕ) (history : List (Identity × ℕ))
    → ((p : Identity) (since : ℕ)
        → o ≡ some (p, since)
        → Unchallenged p.display_name rank since history)
    → c.confidence ≡ rank
    → Unchallenged c.display_name rank (run_start o c now) ((c, now) ∷ history)
unfolding Unchallenged run_start
start-Unchallenged none c now rank history h k = ((refl, k), inl refl)
start-Unchallenged (some (p, since)) c now rank history h k =
    elim (Bool-cases (p.display_name == c.display_name)) [
      | inl same ↦
          subst (λ s. Unchallenged c.display_name rank s ((c, now) ∷ history))
            (sym (start_same p since c now same))
            (
              (refl, k),
              inr (
                  subst (λ n. Unchallenged n rank since history)
                    ((list_beq_iff p.display_name c.display_name).0 same) (h p since refl)),
            )
      | inr other ↦ rw other ((refl, k), inl refl)
    ]

-- The name that is pending is the winner of the newest rescorings, since it became pending.
pending-Unchallenged :
    (e : Entry) (history : List (Identity × ℕ))
    → e.pending_identity ≡ none
    → (p : Identity) (since : ℕ) → (after_scores e history).pending_identity ≡ some (p, since)
    → Unchallenged p.display_name (after_scores e history).identity.confidence since history
unfolding after_scores
pending-Unchallenged e [] n p since h = absurd (ground arith)
pending-Unchallenged e ((c, t) ∷ earlier) n p since h =
    let before = after_scores e earlier in
    let (pc, start, kept, level) = adopt_pends before c p t since h in
    rw (pc, start, kept)
      (start-Unchallenged before.pending_identity c t before.identity.confidence earlier
        (pending-Unchallenged e earlier n) level)

-- What a reported rename rests on: a name of strictly higher rank, or one of the same rank that the
-- newest rescorings of the history all picked, back to one at least a settle window ago.
abbrev pub Earned : Identity → List (Identity × ℕ) → Identity → ℕ → Type 0
Earned held history c now =
    (held.confidence < c.confidence)
    ⊎ ((since : ℕ) × Unchallenged c.display_name held.confidence since history
        × (since + settle_window ≤ now)
        × (c.confidence ≡ held.confidence))

adopt_reports :
    (e : Entry) (c : Identity) (now : ℕ) (o : Option (Identity × ℕ)) (history : List (Identity × ℕ))
    → e.pending_identity ≡ o
    → ((p : Identity) (since : ℕ)
        → o ≡ some (p, since)
        → Unchallenged p.display_name e.identity.confidence since history)
    → (old : Identity) → (adopt e c now).1 ≡ some old
    → (old ≡ e.identity) × ((adopt e c now).0.identity ≡ c) × Earned e.identity history c now
unfolding adopt compare settled run_start
adopt_reports e c now none history h u old r = (ground arith, ground arith, inl (ground arith))
adopt_reports e c now (some (p, since)) history h u old r =
    elim (Bool-cases (ltb e.identity.confidence c.confidence)) [
      | inl up ↦ (ground arith, ground arith, inl (ground arith))
      | inr level ↦ (
        ground arith,
        ground arith,
        inr (
          since,
          subst (λ n. Unchallenged n e.identity.confidence since history)
              (ground (arith, list_beq_iff p.display_name c.display_name)) (u p since refl),
          ground arith,
          ground arith,
        ),
      )
    ]

-- A rename is earned: whenever, after any history of rescorings that begins with no name pending,
-- a rescoring reports a rename, it reports the name that the device had, the new identity is the
-- candidate, and the candidate outranks the old name, or the newest rescorings of the history, back
-- to one that is at least a settle window old, all picked that same name at the old rank.
pub adopt-Earned :
    (e : Entry) (history : List (Identity × ℕ)) (c : Identity) (now : ℕ) (old : Identity)
    → e.pending_identity ≡ none
    → (adopt (after_scores e history) c now).1 ≡ some old
    → (old ≡ (after_scores e history).identity)
      × ((adopt (after_scores e history) c now).0.identity ≡ c)
      × Earned (after_scores e history).identity history c now
adopt-Earned e history c now old n r =
    let before = after_scores e history in
    adopt_reports before c now before.pending_identity history refl
      (pending-Unchallenged e history n) old r
