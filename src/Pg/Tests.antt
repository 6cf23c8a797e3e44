-- ===== src/Pg/Tests.antt =====
-- The properties of the SCRAM parser and of the frame codec at concrete inputs.
use cartel.Base.{
  [], arith, drop, err, if◌then◌else◌, leb, length, none, ok, refl, some, take, u32_max, ℕ, ◌++◌,
  ◌-◌, ◌∷◌, ◌≡◌, ◌≢◌, ◌≤◌, ◌↔◌,
}
use cartel.Pg.Reason.{Reason}
use cartel.Pg.Wire.{Wire, split_byte}
use cartel.Pg.Codec.{Input, Head, Parse, parse, parse_body}
use cartel.Pg.Codec.Frames.{IsLawful, frame, parse-frame, parse-append}
use cartel.Pg.Scram.{Attribute, Attributes, next, next_in, attribute_of, attributes_new}
use cartel.Pg.Scram.Messages.{extensions, positive_from, positive_u32}
use cartel.Pg.Scram.Positive.{Canonical, positive_u32_exact}
use cartel.Resp.Number.Decimal.{decimal_from, AllDigits}
use cartel.Pg.Scram.Next.{Taken, next-Taken}
use cartel.Pg.Scram.Extensions.{IsAttributes, extensions_ends}

-- `x=1,y=2`
abbrev two_attributes : Wire
two_attributes = b'x' ∷ b'=' ∷ b'1' ∷ b',' ∷ b'y' ∷ b'=' ∷ b'2' ∷ []

abbrev first_attribute : Attribute
first_attribute = record { name = b'x'; value = b'1' ∷ []; start = 2 }

abbrev second_bytes : Attributes
second_bytes = record { tail = some (b'y' ∷ b'=' ∷ b'2' ∷ []); length = 7 }

first_is_taken : next (attributes_new two_attributes) ≡ ok (some first_attribute, second_bytes)
unfolding next next_in attribute_of split_byte
first_is_taken = refl

next-Taken_example : Taken 7 two_attributes first_attribute second_bytes
next-Taken_example = next-Taken 7 two_attributes first_is_taken (omega arith)

second_bytes-IsAttributes : IsAttributes second_bytes
unfolding IsAttributes
second_bytes-IsAttributes = omega arith

extensions_ends_example : extensions second_bytes ≢ err Reason.out_of_fuel
extensions_ends_example = extensions_ends second_bytes second_bytes-IsAttributes

abbrev granting : Input Unit ℕ
granting = record {
  need_to = λ bytes n. some n;
  try_consumed = λ bytes n. if leb n (length bytes) then none else some tt;
  try_prefix = λ bytes offset n.
      if leb n (length bytes) then ok (take (n - offset) (drop offset bytes)) else err tt;
}

granting-IsLawful : IsLawful granting
granting-IsLawful = record {
  consumed = λ bytes n h. ground arith;
  prefix = λ bytes offset n le h. ground arith;
}

parse-frame_example :
    parse granting 1000 (frame b'Z' (b'I' ∷ []) ++ b'x' ∷ [])
    ≡ ok (Parse.item (Head.message b'Z' (b'I' ∷ [])) 6)
parse-frame_example =
    parse-frame granting 1000 b'Z' (b'I' ∷ []) (b'x' ∷ []) granting-IsLawful (omega arith)
      (omega arith)

-- `4096`
abbrev iterations : Wire
iterations = b'4' ∷ b'0' ∷ b'9' ∷ b'6' ∷ []

iterations_read : positive_u32 iterations 9 ≡ ok 4096
unfolding positive_u32 positive_from
iterations_read = refl

iterations-Canonical : Canonical iterations
unfolding Canonical AllDigits
iterations-Canonical = (
  λ e. ground arith,
  (
    (omega arith, omega arith),
    ((omega arith, omega arith), ((omega arith, omega arith), ((omega arith, omega arith), tt))),
  ),
)

iterations_fit : decimal_from 0 iterations ≤ u32_max
unfolding decimal_from
iterations_fit = omega arith

-- a `ready for query`
abbrev ready_bytes : Wire
ready_bytes = b'Z' ∷ 0 ∷ 0 ∷ 0 ∷ 5 ∷ b'I' ∷ []

ready_parsed : parse granting 1000 ready_bytes ≡ ok (Parse.item (Head.message b'Z' (b'I' ∷ [])) 6)
unfolding parse parse_body
ready_parsed = refl

parse-append_example :
    parse granting 1000 (ready_bytes ++ b'x' ∷ [])
    ≡ ok (Parse.item (Head.message b'Z' (b'I' ∷ [])) 6)
parse-append_example =
    parse-append granting 1000 ready_bytes (b'x' ∷ []) granting-IsLawful (omega arith) ready_parsed

positive_u32_exact_example :
    (positive_u32 iterations 9 ≡ ok 4096)
    ↔ (Canonical iterations × (4096 ≡ decimal_from 0 iterations) × (4096 ≤ u32_max))
positive_u32_exact_example = positive_u32_exact iterations 9
