-- ===== src/Capture/Dns.antt =====
-- src/capture/dns.rs: the reader of DNS messages. A byte is a number below 256, and masks of whole
-- bits are quotients and remainders. A slice of the buffer is its offset and its bytes.
-- `String::from_utf8_lossy` is the standard library's, and is a parameter.
pub mod Stops
pub mod Bounds
pub mod Spelled
use netgraspd.Base.{
  ℕ, zero, suc, ◌+◌, ◌-◌, ◌*◌, ◌/◌, ◌%◌, ◌^◌, Bool, true, false, ◌&&◌, List, [], ◌∷◌, ◌++◌, Option,
  none, some, Text, ◌>>=◌, ◌>>◌, guard, get_elem?, take, drop, length, ltb, leb, eqb, if◌then◌else◌,
}
use netgraspd.Config.Timeouts.{unwrap_or}

abbrev pub max_pointers : ℕ
max_pointers = 16

abbrev pub max_labels : ℕ
max_labels = 64

-- Of `usize`, which has 64 bits.
unfoldable pub checked_add : ℕ → ℕ → Option ℕ
checked_add a b = if ltb (a + b) (2 ^ 64) then some (a + b) else none

-- `buf.get(from..to)`
unfoldable pub get_range : List ℕ → ℕ → ℕ → Option (List ℕ)
get_range buf from to =
    if leb from to && leb to (length buf) then some (take (to - from) (drop from buf)) else none

unfoldable pub read_u16 : List ℕ → ℕ → Option ℕ
read_u16 buf offset =
    get_elem? buf offset >>= λ hi. get_elem? buf (offset + 1) >>= λ lo. some (hi * 256 + lo)

pub record Record : Type 0 where
  pub name : List Text
  pub rtype : ℕ
  pub class : ℕ
  pub cache_flush : Bool
  pub ttl : ℕ
  pub rdata_start : ℕ
  pub rdata : List ℕ

pub record Message : Type 0 where
  pub is_response : Bool
  pub authoritative : Bool
  pub questions : List (List Text)
  pub records : List Record

-- The variables of the loop of `read_name`.
pub record Walk : Type 0 where
  pub labels : List Text
  pub offset : ℕ
  pub end_of_name : Option ℕ
  pub pointers : ℕ

-- One turn of the loop: it goes on, or returns.
pub data Turn : Type 0 where
  goes_on : Walk → Turn
  returns : Option (List Text × ℕ) → Turn

-- `None` from `?` returns.
unfoldable pub or_return {ℓ} : {A : Type ℓ} → Option A → (A → Turn) → Turn
or_return none f = returns none
or_return (some a) f = f a

-- `get_or_insert`
unfoldable pub first_end : Option ℕ → ℕ → Option ℕ
first_end none end = some end
first_end (some before) end = some before

abbrev pub and_then : Turn → (Walk → Turn) → Turn
and_then (returns r) f = returns r
and_then (goes_on w) f = f w

abbrev pub returned : Turn → Option (List Text × ℕ)
returned (returns r) = r
returned (goes_on w) = none

-- A record that was read, and those after it.
abbrev pub keep : Option (Record × ℕ) → (ℕ → List Record) → List Record
keep none rest = []
keep (some (r, next)) rest = r ∷ rest next

-- A pointer and a label each count against a limit, so that this many turns are enough.
abbrev pub enough : ℕ
enough = max_pointers + max_labels + 1

module _ (lossy : List ℕ → Text) where
  unfoldable pub follow_pointer : List ℕ → Walk → ℕ → ℕ → Turn
  follow_pointer buf w len lo =
      let target = (len % 64) * 256 + lo in
      if leb w.offset target
      then returns none
      else if ltb max_pointers (w.pointers + 1)
      then returns none
      else goes_on (record w {
        pointers = w.pointers + 1;
        end_of_name = first_end w.end_of_name (w.offset + 2);
        offset = target;
      })

  unfoldable pub push_label : Walk → ℕ → List ℕ → Turn
  push_label w to label =
      let labels = w.labels ++ (lossy label ∷ []) in
      if ltb max_labels (length labels)
      then returns none
      else goes_on (record w { labels = labels; offset = to })

  unfoldable pub take_label : List ℕ → Walk → ℕ → Turn
  take_label buf w len =
      or_return (checked_add (w.offset + 1) len)
        λ to. or_return (get_range buf (w.offset + 1) to) λ label. push_label w to label

  unfoldable pub turn_on : List ℕ → Walk → ℕ → Turn
  turn_on buf w len =
      if eqb (len / 64) 0
      then (if eqb len 0
          then returns (some (w.labels, unwrap_or w.end_of_name (w.offset + 1)))
          else take_label buf w len)
      else if eqb (len / 64) 3
      then or_return (get_elem? buf (w.offset + 1)) (follow_pointer buf w len)
      else returns none

  unfoldable pub turn : List ℕ → Walk → Turn
  turn buf w = or_return (get_elem? buf w.offset) (turn_on buf w)

  -- The loop, on fuel.
  unfoldable pub walk : ℕ → List ℕ → Walk → Turn
  walk zero buf w = goes_on w
  walk (suc fuel) buf w = and_then (turn buf w) (walk fuel buf)

  unfoldable pub read_name : List ℕ → ℕ → Option (List Text × ℕ)
  read_name buf start =
      returned
        (walk enough buf (record { labels = []; offset = start; end_of_name = none; pointers = 0 }))

  unfoldable pub read_ttl : List ℕ → ℕ → Option ℕ
  read_ttl buf at = get_elem? buf at >>= λ a. get_elem? buf (at + 1) >>= λ b.
      get_elem? buf (at + 2) >>= λ c.
      get_elem? buf (at + 3) >>= λ d. some (((a * 256 + b) * 256 + c) * 256 + d)

  unfoldable pub read_fields : List ℕ → List Text → ℕ → Option (Record × ℕ)
  read_fields buf name after_name = read_u16 buf after_name >>= λ rtype.
      read_u16 buf (after_name + 2) >>= λ raw_class. read_ttl buf (after_name + 4) >>= λ ttl.
      read_u16 buf (after_name + 8) >>= λ rdlength.
      checked_add (after_name + 10) rdlength >>= λ rdata_end.
      get_range buf (after_name + 10) rdata_end >>= λ rdata. some (
        record {
          name = name;
          rtype = rtype;
          class = raw_class % 32_768;
          cache_flush = leb 32_768 raw_class;
          ttl = ttl;
          rdata_start = after_name + 10;
          rdata = rdata;
        },
        rdata_end,
      )

  unfoldable pub read_record : List ℕ → ℕ → Option (Record × ℕ)
  read_record buf offset = read_name buf offset >>= λ read. read_fields buf read.0 read.1

  unfoldable pub read_question : List ℕ → ℕ → Option (List Text × ℕ)
  read_question buf offset = read_name buf offset >>= λ read.
      checked_add read.1 4 >>= λ next. guard (leb next (length buf)) >> some (read.0, next)

  unfoldable pub read_questions : ℕ → List ℕ → ℕ → Option (List (List Text) × ℕ)
  read_questions zero buf offset = some ([], offset)
  read_questions (suc n) buf offset = read_question buf offset >>= λ first.
      read_questions n buf first.1 >>= λ later. some (first.0 ∷ later.0, later.1)

  -- What parsed cleanly is kept.
  unfoldable pub read_records : ℕ → List ℕ → ℕ → List Record
  read_records zero buf offset = []
  read_records (suc n) buf offset = keep (read_record buf offset) (read_records n buf)

  unfoldable pub parse_message : List ℕ → Option Message
  parse_message buf =
      guard (leb 12 (length buf))
      >> (read_u16 buf 2 >>= λ flags. read_u16 buf 4 >>= λ qdcount. read_u16 buf 6 >>= λ answers.
          read_u16 buf 8 >>= λ authority. read_u16 buf 10 >>= λ additional.
          read_questions qdcount buf 12 >>= λ asked. some (record {
            is_response = leb 32_768 flags;
            authoritative = eqb ((flags / 1_024) % 2) 1;
            questions = asked.0;
            records = read_records (answers + authority + additional) buf asked.1;
          }))

  rdata_offset : List ℕ → Record → Option ℕ
  rdata_offset msg r = if leb r.rdata_start (length msg) then some r.rdata_start else none

  unfoldable pub ptr_target : List ℕ → Record → Option (List Text)
  unfolding rdata_offset
  ptr_target msg r = rdata_offset msg r >>= λ offset. read_name msg offset >>= λ read. some read.0

  unfoldable pub srv_target : List ℕ → Record → Option (List Text)
  unfolding rdata_offset
  srv_target msg r = rdata_offset msg r >>= λ start.
      checked_add start 6 >>= λ offset. read_name msg offset >>= λ read. some read.0
