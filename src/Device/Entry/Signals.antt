-- ===== src/Device/Entry/Signals.antt =====
-- `Entry::record_signals`: the stored evidence is a set in the order of confirmation, which a
-- batch joins at the front.
use mathlib.Core.List.{reverse-cons, append_assoc, reverse-reverse}
use netgraspd.Base.{
  Bool, false, ◌||◌, not, ◌≡◌, refl, sym, ◌∙◌, ap, List, [], ◌∷◌, ◌++◌, reverse, contains,
  contains-append, Fresh, Apart, Fresh-append, Fresh-snoc, Apart-snoc, any, Bool-cases, inl, inr,
  arith, ◌==◌,
}
use netgraspd.Types.{Signal, signal_eq, signal_beq_iff}
use netgraspd.Device.Entry.{
  Batch, remove_first, take_signal, take_signals, insert_each, record_list,
}

insert_each-append : (ss xs : List Signal) → insert_each ss xs ≡ reverse ss ++ xs
unfolding insert_each
insert_each-append [] xs = refl
insert_each-append (s ∷ ss) xs =
    insert_each-append ss (s ∷ xs)
    ∙ sym (append_assoc (reverse ss) (s ∷ []) xs)
    ∙ ap (λ ys. ys ++ xs) (sym (reverse-cons s ss))

contains-remove_first_ne :
    (s x : Signal) (xs : List Signal)
    → (s == x) ≡ false
    → contains (remove_first s xs) x ≡ contains xs x
unfolding remove_first
contains-remove_first_ne s x [] h = refl
contains-remove_first_ne s x (y ∷ ys) h = ground (
  arith,
  contains-remove_first_ne s x ys h,
  signal_beq_iff y s,
  signal_beq_iff y x,
  signal_beq_iff s x,
)

contains-remove_first_self :
    (s : Signal) (xs : List Signal) → Fresh xs → contains (remove_first s xs) s ≡ false
unfolding remove_first
contains-remove_first_self s [] f = refl
contains-remove_first_self s (y ∷ ys) f =
    ground (arith, contains-remove_first_self s ys f.1, signal_beq_iff y s)

contains-remove_first_mono :
    (s x : Signal) (xs : List Signal)
    → contains xs x ≡ false
    → contains (remove_first s xs) x ≡ false
unfolding remove_first
contains-remove_first_mono s x [] h = refl
contains-remove_first_mono s x (y ∷ ys) h = ground (arith, contains-remove_first_mono s x ys)

remove_first-Fresh : (s : Signal) (xs : List Signal) → Fresh xs → Fresh (remove_first s xs)
unfolding remove_first
remove_first-Fresh s [] f = tt
remove_first-Fresh s (y ∷ ys) f =
    ground (arith, remove_first-Fresh s ys f.1, contains-remove_first_mono s y ys f.0)

Apart-remove_first : (s : Signal) (bs xs : List Signal) → Apart bs xs → Apart bs (remove_first s xs)
Apart-remove_first s [] xs h = tt
Apart-remove_first s (b ∷ bs) xs h =
    (contains-remove_first_mono s b xs h.0, Apart-remove_first s bs xs h.1)

-- What the loop keeps: both lists free of repeats, and nothing in both.
record IsSplit (b : Batch) : Type 0 where
  left_fresh : Fresh b.left
  batch_fresh : Fresh b.batch
  apart : Apart b.batch b.left

take_signal-IsSplit : (s : Signal) (b : Batch) → IsSplit b → IsSplit (take_signal s b)
unfolding take_signal
take_signal-IsSplit s b v = elim (Bool-cases (contains b.batch s)) [
  | inl e ↦ rw e v
  | inr e ↦ rw e (elim (Bool-cases (contains b.left s)) [
    | inl f ↦ rw f (record {
      left_fresh = remove_first-Fresh s b.left v.left_fresh;
      batch_fresh = Fresh-snoc b.batch s v.batch_fresh e;
      apart =
          Apart-snoc b.batch (remove_first s b.left) s (Apart-remove_first s b.batch b.left v.apart)
            (contains-remove_first_self s b.left v.left_fresh);
    })
    | inr f ↦ rw f (record {
      left_fresh = v.left_fresh;
      batch_fresh = Fresh-snoc b.batch s v.batch_fresh e;
      apart = Apart-snoc b.batch b.left s v.apart f;
    })
  ])
]

take_signals-IsSplit : (ss : List Signal) (b : Batch) → IsSplit b → IsSplit (take_signals ss b)
unfolding take_signals
take_signals-IsSplit [] b v = v
take_signals-IsSplit (s ∷ ss) b v =
    take_signals-IsSplit ss (take_signal s b) (take_signal-IsSplit s b v)

abbrev start : List Signal → Batch
start signals = record { left = signals; batch = []; any_new = false }

record_list-append :
    (signals incoming : List Signal)
    → let b = take_signals incoming (start signals) in
      record_list signals incoming ≡ (b.batch ++ b.left, b.any_new)
unfolding record_list
record_list-append signals incoming =
    let b = take_signals incoming (start signals) in
    rw (insert_each-append (reverse b.batch) b.left, reverse-reverse b.batch)

-- Evidence is stored once: if no signal stands twice in the list, none does after a batch is
-- recorded, whatever repeats the batch holds.
pub record_list-Fresh :
    (signals incoming : List Signal) → Fresh signals → Fresh (record_list signals incoming).0
record_list-Fresh signals incoming f =
    let v =
      take_signals-IsSplit incoming (start signals)
        (record { left_fresh = f; batch_fresh = tt; apart = tt }) in
    rw (record_list-append signals incoming) (Fresh-append _ _ v.batch_fresh v.left_fresh v.apart)

-- In the batch or still in the old list.
abbrev held : Batch → Signal → Bool
held b x = contains b.batch x || contains b.left x

held-take_signal :
    (s : Signal) (b : Batch) (x : Signal) → held (take_signal s b) x ≡ ((s == x) || held b x)
unfolding take_signal
held-take_signal s b x = ground (
  arith,
  contains-append b.batch (s ∷ []) x,
  contains-remove_first_ne s x b.left,
  signal_beq_iff s x,
)

held-take_signals :
    (ss : List Signal) (b : Batch) (x : Signal)
    → held (take_signals ss b) x ≡ (contains ss x || held b x)
unfolding take_signals
held-take_signals [] b x = refl
held-take_signals (s ∷ ss) b x =
    rw (held-take_signals ss (take_signal s b) x, held-take_signal s b x) (ground arith)

-- No evidence is lost and none made up: a signal is in the list afterwards exactly if it was
-- there before or came with the batch.
pub contains-record_list :
    (signals incoming : List Signal) (x : Signal)
    → contains (record_list signals incoming).0 x ≡ (contains incoming x || contains signals x)
contains-record_list signals incoming x =
    let b = take_signals incoming (start signals) in
    rw (record_list-append signals incoming)
      (contains-append b.batch b.left x ∙ held-take_signals incoming (start signals) x)

any_congr :
    (p q : Signal → Bool) (ss : List Signal) → ((x : Signal) → p x ≡ q x) → any p ss ≡ any q ss
any_congr p q [] h = refl
any_congr p q (s ∷ ss) h = rw (h s, any_congr p q ss h)

any_new-take_signals :
    (ss : List Signal) (b : Batch)
    → (take_signals ss b).any_new ≡ (b.any_new || any (λ x. not (held b x)) ss)
unfolding take_signals
any_new-take_signals [] b = ground arith
any_new-take_signals (s ∷ ss) b =
    any_new-take_signals ss (take_signal s b) ∙ elim (Bool-cases (held b s)) [
      | inl old ↦
          rw
            (any_congr (λ x. not (held (take_signal s b) x)) (λ x. not (held b x)) ss
              (λ x. ground (arith, held-take_signal s b x, signal_beq_iff s x)))
            (unfold take_signal in ground arith)
      | inr new ↦ unfold take_signal in ground arith
    ]

-- A batch is reported as new evidence exactly if some signal of it was not stored before.
pub record_list-any_new :
    (signals incoming : List Signal)
    → (record_list signals incoming).1 ≡ any (λ s. not (contains signals s)) incoming
record_list-any_new signals incoming =
    ap (λ r. r.1) (record_list-append signals incoming)
    ∙ any_new-take_signals incoming (start signals)
