-- ===== src/Capture/Dns/Bounds/Sizes.antt =====
-- src/capture/dns.rs: how much a message can make of its bytes.
use netgraspd.Base.{
  ℕ, zero, suc, ◌+◌, ◌*◌, ◌≤◌, Bool, true, false, List, some, Text, ◌≡◌, refl, arith, Option-cases,
  inl, inr, length, leb, guard, >>=-eq-some, leb→le,
}
use netgraspd.Capture.Dns.{
  read_name, checked_add, get_range, read_u16, Record, Message, read_fields, read_ttl, read_record,
  read_question, read_questions, read_records, parse_message,
}
use netgraspd.Capture.Dns.Bounds.{read_name-Fits, checked_add-some}

get_range-le :
    (buf : List ℕ) (from to : ℕ) (s : List ℕ) → get_range buf from to ≡ some s → to ≤ length buf
unfolding get_range
get_range-le buf from to s h = ground arith

guard-some : (b : Bool) (u : Unit {0}) → guard b ≡ some u → b ≡ true
guard-some true u h = refl
guard-some false u h = absurd (ground arith)

module _ (lossy : List ℕ → Text) (buf : List ℕ) where
  read_fields-end :
      (name : List Text) (after_name : ℕ) (r : Record) (next : ℕ)
      → read_fields lossy buf name after_name ≡ some (r, next)
      → (after_name + 10 ≤ next) × (next ≤ length buf)
  unfolding read_fields
  read_fields-end name after_name r next h =
      let (rtype, _, h1) = >>=-eq-some (read_u16 buf after_name) _ h in
      let (class, _, h2) = >>=-eq-some (read_u16 buf (after_name + 2)) _ h1 in
      let (ttl, _, h3) = >>=-eq-some (read_ttl lossy buf (after_name + 4)) _ h2 in
      let (rdlength, _, h4) = >>=-eq-some (read_u16 buf (after_name + 8)) _ h3 in
      let (rdata_end, sum, h5) = >>=-eq-some (checked_add (after_name + 10) rdlength) _ h4 in
      let (rdata, range, h6) = >>=-eq-some (get_range buf (after_name + 10) rdata_end) _ h5 in
      ground (
        arith,
        checked_add-some lossy buf 0 (after_name + 10) rdlength rdata_end sum,
        get_range-le buf (after_name + 10) rdata_end rdata range,
      )

  read_record-end :
      (offset : ℕ) (r : Record) (next : ℕ)
      → read_record lossy buf offset ≡ some (r, next)
      → (offset + 11 ≤ next) × (next ≤ length buf)
  unfolding read_record
  read_record-end offset r next h =
      let (read, named, h1) = >>=-eq-some (read_name lossy buf offset) _ h in
      let (a, b, c) = read_name-Fits lossy buf offset read.0 read.1 named in
      let (d, e) = read_fields-end read.0 read.1 r next h1 in (omega arith, e)

  read_question-end :
      (offset : ℕ) (name : List Text) (next : ℕ)
      → read_question lossy buf offset ≡ some (name, next)
      → (offset + 5 ≤ next) × (next ≤ length buf)
  unfolding read_question
  read_question-end offset name next h =
      let (read, named, h1) = >>=-eq-some (read_name lossy buf offset) _ h in
      let (a, b, c) = read_name-Fits lossy buf offset read.0 read.1 named in
      let (end, sum, h2) = >>=-eq-some (checked_add read.1 4) _ h1 in
      let (u, within, h3) = >>=-eq-some (guard (leb end (length buf))) _ h2 in
      ground (
        arith,
        checked_add-some lossy buf 0 read.1 4 end sum,
        leb→le end (length buf) (guard-some (leb end (length buf)) u within),
      )

  read_questions-end :
      (n offset : ℕ) (names : List (List Text)) (next : ℕ)
      → offset ≤ length buf
      → read_questions lossy n buf offset ≡ some (names, next)
      → (offset + 5 * n ≤ next) × (next ≤ length buf) × (length names ≡ n)
  unfolding read_questions
  read_questions-end zero offset names next o h = ground arith
  read_questions-end (suc n) offset names next o h =
      let (first, asked, h1) = >>=-eq-some (read_question lossy buf offset) _ h in
      let (later, rest, h2) = >>=-eq-some (read_questions lossy n buf first.1) _ h1 in
      let (a, b) = read_question-end offset first.0 first.1 asked in
      ground (arith, read_questions-end n first.1 later.0 later.1 b rest)

  read_records-size :
      (n offset : ℕ)
      → offset ≤ length buf
      → offset + 11 * length (read_records lossy n buf offset) ≤ length buf
  unfolding read_records
  read_records-size zero offset o = omega arith
  read_records-size (suc n) offset o = elim (Option-cases (read_record lossy buf offset)) [
    | inl e ↦ rw e (omega arith)
    | inr ((r, next), e) ↦
        let (a, b) = read_record-end offset r next e in
        rw e (omega (arith, read_records-size n next b))
  ]

  -- Whatever its counts say, a message that is read has no more questions and records than its
  -- bytes hold: beside the header of 12 bytes, at least 5 for a question and 11 for a record.
  pub parse_message-size :
      (m : Message)
      → parse_message lossy buf ≡ some m
      → 12 + 5 * length m.questions + 11 * length m.records ≤ length buf
  unfolding parse_message
  parse_message-size m h =
      let (u, long, h0) = >>=-eq-some (guard (leb 12 (length buf))) _ h in
      let (flags, _, h1) = >>=-eq-some (read_u16 buf 2) _ h0 in
      let (qdcount, _, h2) = >>=-eq-some (read_u16 buf 4) _ h1 in
      let (answers, _, h3) = >>=-eq-some (read_u16 buf 6) _ h2 in
      let (authority, _, h4) = >>=-eq-some (read_u16 buf 8) _ h3 in
      let (additional, _, h5) = >>=-eq-some (read_u16 buf 10) _ h4 in
      let (asked, questions, h6) = >>=-eq-some (read_questions lossy qdcount buf 12) _ h5 in
      let (a, b, c) =
        read_questions-end qdcount 12 asked.0 asked.1
          (leb→le 12 (length buf) (guard-some (leb 12 (length buf)) u long)) questions in
      let size = read_records-size (answers + authority + additional) asked.1 b in ground arith
