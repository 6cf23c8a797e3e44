-- ===== src/Resp/Tests.antt =====
-- The properties of the parts of the RESP decoder and of the encoder at concrete inputs.
use mathlib.Core.Logic.{◌↔◌}
use cartel.Base.{
  List, [], arith, length, none, ok, refl, replicate, some, suc, u32_max, u64_max, zero, ℕ, ◌*◌,
  ◌++◌, ◌+◌, ◌<◌, ◌∷◌, ◌≡◌, ◌≤◌,
}
use cartel.Resp.Limit.{
  text_break, find_text, line_at, find_in, position_crlf, find, position_break, frame_line,
  find_counted, frame_next, count, Found, found_stop, frame_body, Bound, Brand,
}
use cartel.Resp.Number.{unsigned, unsigned_from}
use cartel.Resp.Number.Decimal.{AllBytes, AllDigits, decimal_from, unsigned_exact}
use cartel.Resp.Node.RoundTrip.{IsStored, kind-node_new}
use cartel.Resp.Mode.Left.{AllOpen, Finishes, finish_left-wanted}
use cartel.Resp.Body
use cartel.Base.Int.{negsuc}
use cartel.Resp.Limit.Resume.{resume_at, find-resume}
use cartel.Resp.Limit.Bounds.{frame_line-bounds, frame_body-bounds, IsBound}
use cartel.Resp.Node.{kind, node_new, Kind}
use cartel.Resp.Types.{Bytes, Line}
use cartel.Resp.Capacity.{Capacity, try_with, try_with_exact}
use cartel.Resp.Digits.{write_digits, unsigned-write_digits}
use cartel.Resp.Encode.{
  reserved_length, length_array, length_add, number_new, length_bulks, length_bulk, digits_in,
  command_bytes,
}
use cartel.Resp.Encode.Exact.{HasLength, reserved_length-HasLength}
use cartel.Resp.Mode.{finish_left}

abbrev byte_max : Bound Brand.frame
byte_max = record { value = 100 }

byte_max-IsBound : IsBound byte_max
byte_max-IsBound = record { positive = omega arith; fits = omega arith }

-- `+a\r` waits for its line feed
abbrev text_bytes : Bytes
text_bytes = b'+' ∷ b'a' ∷ b'\r' ∷ []

text_waits : find text_bytes 1 1 Line.status ≡ ok none
unfolding find find_in find_text text_break position_break line_at
text_waits = refl

find-resume_example :
    find (text_bytes ++ b'\n' ∷ []) 1 1 Line.status
    ≡ find (text_bytes ++ b'\n' ∷ []) 1 (resume_at text_bytes 1) Line.status
find-resume_example =
    find-resume Line.status text_bytes (b'\n' ∷ []) 1 1 (omega arith) (omega arith) text_waits

-- `:12\r\n` is there
abbrev number_bytes : Bytes
number_bytes = b':' ∷ b'1' ∷ b'2' ∷ b'\r' ∷ b'\n' ∷ []

abbrev number_found : Found
number_found = record { value = b'1' ∷ b'2' ∷ []; start = 1 }

number_is_found : find number_bytes 1 1 Line.integer ≡ ok (some number_found)
unfolding find find_in find_counted position_crlf line_at
number_is_found = refl

bulk_body : frame_body byte_max 4 3 ≡ ok (Body.new 4 7)
unfolding frame_body count Body.new
bulk_body = refl

frame_body-bounds_example :
    (Body.start (Body.new 4 7) ≡ 4)
    × (Body.stop (Body.new 4 7) ≡ 7)
    × (Body.stop (Body.new 4 7) + 2 ≤ 100)
frame_body-bounds_example = frame_body-bounds byte_max-IsBound 4 3 (omega arith) bulk_body

number_line : frame_line byte_max number_found ≡ ok (5, Body.new 1 3)
unfolding frame_line frame_next Body.new
number_line = refl

frame_line-bounds_example :
    (5 ≡ found_stop number_found + 2)
    × (5 ≤ 100)
    × (Body.start (Body.new 1 3) ≡ 1)
    × (Body.stop (Body.new 1 3) ≡ found_stop number_found)
frame_line-bounds_example = frame_line-bounds byte_max-IsBound number_found number_line

negative-IsStored : IsStored (Kind.integer (negsuc 4))
unfolding IsStored
negative-IsStored = omega arith

kind-node_new_example : kind (node_new 7 (Kind.integer (negsuc 4))) ≡ Kind.integer (negsuc 4)
kind-node_new_example = kind-node_new 7 (Kind.integer (negsuc 4)) negative-IsStored

abbrev forty_two : Bytes
forty_two = b'4' ∷ b'2' ∷ []

forty_two-AllDigits : AllDigits forty_two
unfolding AllDigits
forty_two-AllDigits = ((omega arith, omega arith), ((omega arith, omega arith), tt))

forty_two-AllBytes : AllBytes forty_two
unfolding AllBytes
forty_two-AllBytes = (omega arith, (omega arith, tt))

forty_two-fits : decimal_from 0 forty_two ≤ u64_max
unfolding decimal_from
forty_two-fits = omega arith

forty_two-read : unsigned forty_two 9 ≡ ok 42
unfolding unsigned unsigned_from
forty_two-read = refl

-- 10^20 - 1
abbrev too_large : Bytes
too_large = replicate 20 b'9'

nines-AllDigits : (n : ℕ) → AllDigits (replicate n b'9')
unfolding AllDigits
nines-AllDigits zero = tt
nines-AllDigits (suc n) = ((omega arith, omega arith), nines-AllDigits n)

too_large-overflows : u64_max < decimal_from 0 too_large
unfolding decimal_from
too_large-overflows = omega arith

two_open-AllOpen : AllOpen (1 ∷ 2 ∷ [])
unfolding AllOpen
two_open-AllOpen = (omega arith, (omega arith, tt))

finish_left-wanted_example : Finishes (1 ∷ 2 ∷ []) (finish_left (1 ∷ 2 ∷ []))
finish_left-wanted_example = finish_left-wanted (1 ∷ 2 ∷ []) two_open-AllOpen

unsigned-write_digits_example :
    (ds : Bytes) × (write_digits 1205 ≡ some ds) × (unsigned ds 7 ≡ ok 1205)
unsigned-write_digits_example = unsigned-write_digits 1205 7 (omega arith)

abbrev granted_capacity : Capacity
granted_capacity = record { nodes = 450; connections = 9; lanes = 4 }

try_with_exact_example : (try_with 9 4 100 50 ≡ ok granted_capacity) ↔ (
    (4 * 100 + 50 ≤ u32_max)
    × (granted_capacity ≡ record { nodes = 4 * 100 + 50; connections = 9; lanes = 4 }))
try_with_exact_example = try_with_exact 9 4 100 50 granted_capacity

-- `GET k`
abbrev get_command : List Bytes
get_command = (b'G' ∷ b'E' ∷ b'T' ∷ []) ∷ (b'k' ∷ []) ∷ []

get_command_reserved : reserved_length get_command [] ≡ ok 20
unfolding reserved_length length_array length_add number_new length_bulks length_bulk digits_in
get_command_reserved = refl

reserved_length-HasLength_example : HasLength 20 (command_bytes get_command [])
reserved_length-HasLength_example = reserved_length-HasLength get_command [] get_command_reserved

unsigned_exact_example : (unsigned forty_two 9 ≡ ok 42) ↔ (
    (0 < length forty_two) × AllDigits forty_two × (42 ≡ decimal_from 0 forty_two) × (42 ≤ u64_max))
unsigned_exact_example = unsigned_exact forty_two 9 forty_two-AllBytes
