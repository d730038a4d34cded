-- ===== src/Providers/Sse.antt =====
-- core/providers/internal/transport/sse/reader.go. The text is all that the underlying reader gives
-- until its end; its other errors are left out. The code tests the size after each part of a line that
-- fits its buffer, which refuses the same lines as the test after the whole line. A reader that has
-- failed is not used again.
pub mod Fields
pub mod Bounded
use serpe.Base.{
  ℕ, zero, suc, ◌+◌, ◌*◌, ◌-◌, ◌^◌, Bool, true, false, not, ◌&&◌, ◌||◌, List, [], ◌∷◌, ◌++◌, ◌==◌,
  nat_eq, ltb, leb, if◌then◌else◌, Bytes, bytes_eq, bytes_beq, codes, length, take, valid_string,
}

pub record Event : Type 0 where
  pub name : Bytes
  pub payload : Bytes
  pub id : Bytes
  pub retry : Bytes

-- The event that `Next` is about to make; its data end in a line break that `dispatch` cuts off.
pub record Reading : Type 0 where
  pub event : Event
  pub size : ℕ
  pub has_field : Bool
  pub has_data : Bool

pub data SseError : Type 0 where
  too_large invalid_utf8 : SseError

-- An event with the last ID and what is left, the end with the last ID, or an error; `exhausted` is no
-- behaviour of the code.
pub data Outcome : Type 0 where
  dispatched : Event → Bytes → Bytes → Outcome
  at_end : Bytes → Outcome
  failed : SseError → Outcome
  exhausted : Outcome

-- A line without its line break, whether the text ends there, and the rest.
unfoldable pub take_line : Bytes → Bytes × Bool × Bytes
take_line [] = ([], true, [])
take_line (c ∷ s) =
    let line = take_line s in if c == 10 then ([], false, s) else (c ∷ line.0, line.1, line.2)

-- Without a carriage return at its end.
unfoldable pub trim_suffix : Bytes → Bytes
trim_suffix [] = []
trim_suffix (c ∷ []) = if c == 13 then [] else c ∷ []
trim_suffix (c ∷ d ∷ s) = c ∷ trim_suffix (d ∷ s)

abbrev pub without_space : Bytes → Bytes
without_space [] = []
without_space (c ∷ s) = if c == b' ' then s else c ∷ s

unfoldable pub split_field : Bytes → Bytes × Bytes
split_field [] = ([], [])
split_field (c ∷ s) =
    let rest = split_field s in if c == b':' then ([], without_space s) else (c ∷ rest.0, rest.1)

unfoldable pub contains_zero : Bytes → Bool
contains_zero [] = false
contains_zero (c ∷ s) = c == 0 || contains_zero s

-- `strconv.ParseUint` in base 10: the digits, and the number that they make.
unfoldable pub all_digits : Bytes → Bool
all_digits [] = true
all_digits (c ∷ s) = leb b'0' c && leb c b'9' && all_digits s

unfoldable pub number_of : ℕ → Bytes → ℕ
number_of n [] = n
number_of n (c ∷ s) = number_of (n * 10 + (c - b'0')) s

unfoldable pub is_uint64 : Bytes → Bool
unfolding all_digits number_of bytes_beq
is_uint64 s = not (s == []) && all_digits s && ltb (number_of 0 s) (2 ^ 64)

-- What a field of a name and a value does.
unfoldable pub set_field : Bytes → Bytes → Reading → Reading
unfolding contains_zero is_uint64 bytes_beq
set_field field value r =
    if field == codes "event"
    then record r { event = record r.event { name = value }; has_field = true }
    else if field == codes "data"
    then record r {
      event = record r.event { payload = r.event.payload ++ (value ++ 10 ∷ []) };
      has_field = true;
      has_data = true;
    }
    else if field == codes "id"
    then record r {
      event = if contains_zero value then r.event else record r.event { id = value };
      has_field = true;
    }
    else if field == codes "retry"
    then record r {
      event = if is_uint64 value then record r.event { retry = value } else r.event;
      has_field = true;
    }
    else r

abbrev pub unless_comment : Bool → Bytes × Bytes → Reading → Reading
unless_comment true parts r = r
unless_comment false parts r = set_field parts.0 parts.1 r

-- A line that is not empty; a comment begins with a colon.
unfoldable pub read_field : Bytes → Reading → Reading
unfolding split_field set_field
read_field [] r = r
read_field (c ∷ s) r = unless_comment (c == b':') (split_field (c ∷ s)) r

abbrev pub dispatch : Event → Event
dispatch e = record e { payload = take (length e.payload - 1) e.payload }

abbrev pub new_reading : Bytes → Reading
new_reading last_id = record {
  event = record { name = []; payload = []; id = last_id; retry = [] };
  size = 0;
  has_field = false;
  has_data = false;
}

-- What becomes of an empty line, where `go` reads on with the last ID.
unfoldable pub at_empty : Bytes → Bool → Bytes → Reading → (Bytes → Reading → Outcome) → Outcome
at_empty last_id eof rest r go =
    if not r.has_field
    then (if eof then at_end last_id else go last_id (record r { size = 0 }))
    else if r.has_data
    then dispatched (dispatch r.event) r.event.id rest
    else if eof
    then at_end r.event.id
    else go r.event.id (new_reading r.event.id)

-- What becomes of a line with text, once its field has been read.
unfoldable pub at_field : Bytes → Bool → Bytes → Reading → (Bytes → Reading → Outcome) → Outcome
at_field last_id eof rest r go =
    if not eof
    then go last_id r
    else if r.has_field && r.has_data
    then dispatched (dispatch r.event) r.event.id rest
    else at_end (if r.has_field then r.event.id else last_id)

-- A line of the loop of `Next`.
unfoldable pub read_line :
    ℕ → Bytes → Bytes × Bool × Bytes → Reading → (Bytes → Reading → Outcome) → Outcome
unfolding trim_suffix valid_string read_field at_empty at_field bytes_beq
read_line max_size last_id (raw, eof, rest) r go =
    let size : ℕ = r.size + length raw + (if eof then 0 else 1) in
    let line : Bytes = trim_suffix raw in
    let read : Reading = record r { size = size } in
    if max_size == 0 || ltb max_size size
    then failed too_large
    else if line == []
    then at_empty last_id eof rest read go
    else if not (valid_string line)
    then failed invalid_utf8
    else at_field last_id eof rest (read_field line read) go

unfoldable pub next_event : ℕ → ℕ → Bytes → Reading → Bytes → Outcome
unfolding take_line read_line
next_event zero max_size last_id r text = exhausted
next_event (suc f) max_size last_id r text =
    let line = take_line text in
    read_line max_size last_id line r (λ last r'. next_event f max_size last r' line.2)

-- `Next` of a reader with a last ID.
unfoldable pub next : ℕ → Bytes → Bytes → Outcome
unfolding next_event
next max_size last_id text =
    next_event (suc (length text)) max_size last_id (new_reading last_id) text
