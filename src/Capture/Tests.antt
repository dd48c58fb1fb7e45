-- ===== src/Capture/Tests.antt =====
-- Three sightings, the first two of one host within a second, and two DNS messages.
use netgraspd.Base.{
  ℕ, ◌+◌, ◌*◌, ◌≡◌, ◌≤◌, refl, max, String, [], ◌∷◌, List, none, some, Text, false, length, arith,
}
use netgraspd.Types.Mac.{MacAddr}
use netgraspd.Types.Observed.{Observation, request}
use netgraspd.Capture.Dedup.{new_dedup, admitted}
use netgraspd.Capture.Dns.{Message, Walk, returns, walk, read_name, parse_message}
use netgraspd.Capture.Dns.Stops.{walk-stops}
use netgraspd.Capture.Dns.Bounds.Sizes.{parse_message-size}
use netgraspd.Capture.Dns.Spelled.{read_name-spell}
use netgraspd.Capture.Dedup.Window.{first_seen, key_at, run_dedup}

abbrev mixed : MacAddr → String → ℕ → ℕ
mixed m kind bucket = m.o5 + 256 * bucket

abbrev seen_at : ℕ → ℕ → Observation
seen_at host at = record {
  mac = record { o0 = 2; o1 = 0; o2 = 0; o3 = 0; o4 = 0; o5 = host };
  ip = none;
  interface = [];
  source = "arp";
  kind = request;
  signals = [];
  claims = [];
  detail = none;
  observed_at = at;
}

abbrev sightings : List Observation
sightings = seen_at 1 100 ∷ (seen_at 1 200 ∷ (seen_at 2 300 ∷ []))

run_dedup_example :
    admitted mixed sightings (new_dedup 2 1)
    ≡ first_seen (max 2 1) (key_at mixed (new_dedup 2 1).resolution_secs) [] sightings
run_dedup_example = run_dedup mixed 2 1 sightings

-- A header for one question and no record, and the name `a.b` in it.
abbrev query : List ℕ
query =
    0 ∷ 0 ∷ 0 ∷ 0 ∷ 0 ∷ 1 ∷ 0 ∷ 0 ∷ 0 ∷ 0 ∷ 0 ∷ 0 ∷ 1 ∷ b'a' ∷ 1 ∷ b'b' ∷ 0 ∷ 0 ∷ 12 ∷ 0 ∷ 1 ∷ []

abbrev as_text : List ℕ → Text
as_text bytes = bytes

abbrev read_query : Message
read_query = record {
  is_response = false;
  authoritative = false;
  questions = ((b'a' ∷ []) ∷ ((b'b' ∷ []) ∷ [])) ∷ [];
  records = [];
}

-- A name that points at itself through a label.
abbrev looping : List ℕ
looping = 1 ∷ b'a' ∷ 192 ∷ 0 ∷ []

walk-stops_example :
    walk as_text 100 looping (record { labels = []; offset = 0; end_of_name = none; pointers = 0 })
    ≡ returns (read_name as_text looping 0)
walk-stops_example = walk-stops as_text looping 0 100 (omega arith)

parse_message-size_example :
    12 + 5 * length read_query.questions + 11 * length read_query.records ≤ length query
unfolding parse_message netgraspd.Capture.Dns.read_u16 netgraspd.Capture.Dns.read_questions
    netgraspd.Capture.Dns.read_question read_name walk netgraspd.Capture.Dns.turn
    netgraspd.Capture.Dns.or_return netgraspd.Capture.Dns.turn_on netgraspd.Capture.Dns.take_label
    netgraspd.Capture.Dns.checked_add netgraspd.Capture.Dns.get_range
    netgraspd.Capture.Dns.push_label netgraspd.Capture.Dns.read_records
parse_message-size_example = parse_message-size as_text query read_query refl

read_name-spell_example : read_name as_text query 12 ≡ some ((b'a' ∷ []) ∷ ((b'b' ∷ []) ∷ []), 17)
read_name-spell_example =
    read_name-spell as_text query (omega arith) ((b'a' ∷ []) ∷ ((b'b' ∷ []) ∷ [])) 12
      (0 ∷ 12 ∷ 0 ∷ 1 ∷ []) ((omega arith, omega arith), ((omega arith, omega arith), tt))
      (omega arith) refl
