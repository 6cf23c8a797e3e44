-- ===== src/Pg/Scram.antt =====
-- pg/src/protocol/scram/parser.rs: the server's messages of a SCRAM exchange.
pub mod Messages
pub mod Final
pub mod Next
pub mod Positive
pub mod Extensions
use cartel.Base.{
  Bool, Option, Result, [], err, false, if◌then◌else◌, is_empty, leb, length, none, not, ok, some,
  ℕ, ◌%◌, ◌&&◌, ◌+◌, ◌-◌, ◌/◌, ◌==◌, ◌>>=◌, ◌^◌, ◌||◌, ◌∷◌,
}
use cartel.Pg.Reason.{Reason}
use cartel.Pg.Wire.{Wire, split_byte, find_not}

-- `Attribute`
pub record Attribute : Type 0 where
  pub name : ℕ
  pub value : Wire
  pub start : ℕ

-- `Attribute::offset`
abbrev pub attribute_offset : Attribute → ℕ
attribute_offset a = a.start - 2

-- `Attributes`
pub record Attributes : Type 0 where
  pub tail : Option Wire
  pub length : ℕ

-- `Attributes::new`
abbrev pub attributes_new : Wire → Attributes
attributes_new bytes = record { tail = some bytes; length = length bytes }

-- `u8::is_ascii_lowercase` and `u8::is_ascii_alphabetic`
abbrev pub is_lowercase : ℕ → Bool
is_lowercase b = leb b'a' b && leb b b'z'

abbrev pub is_alphabetic : ℕ → Bool
is_alphabetic b = is_lowercase b || leb b'A' b && leb b b'Z'

-- the value of an attribute and what is behind its comma
abbrev pub parts_of : Wire → Option (Wire × Wire) → Wire × Option Wire
parts_of body none = (body, none)
parts_of body (some (value, tail)) = (value, some tail)

abbrev pub value_and_tail : Wire → Wire × Option Wire
value_and_tail body = parts_of body (split_byte b',' body)

abbrev pub is_some_empty : Option Wire → Bool
is_some_empty none = false
is_some_empty (some tail) = is_empty tail

-- the tests of `Attributes::next` behind the split of the value, and its outcome
unfoldable pub attribute_of :
    (length name begin : ℕ) → Wire × Option Wire → Result Reason (Option Attribute × Attributes)
attribute_of length name begin (value, tail) =
    if is_empty value
    then err (Reason.empty_attribute name begin)
    else if is_some_empty tail
    then err (Reason.trailing_comma (length - 1))
    else ok (
      some (record { name = name; value = value; start = begin }),
      record { tail = tail; length = length },
    )

-- `Attributes::next`, on a tail that is not empty
unfoldable pub next_in : (length : ℕ) → Wire → Result Reason (Option Attribute × Attributes)
next_in total (name ∷ equals ∷ b ∷ bs) =
    let start = total - length (name ∷ equals ∷ b ∷ bs) in
    if not (is_alphabetic name)
    then err (Reason.attribute_name start name)
    else if not (equals == b'=')
    then err (Reason.attribute_equals (start + 1) equals)
    else attribute_of total name (total - length (b ∷ bs)) (value_and_tail (b ∷ bs))
next_in total bytes = err (Reason.attribute_truncated (total - length bytes) (length bytes))

-- `Attributes::next`; the attributes behind an error are dropped by every caller
unfoldable pub next : Attributes → Result Reason (Option Attribute × Attributes)
next attrs = elim attrs.tail [
  | none ↦ ok (none, attrs)
  | some [] ↦ ok (none, record attrs { tail = none })
  | some (b ∷ bs) ↦ next_in attrs.length (b ∷ bs)
]

-- the tests of `Attributes::required`
unfoldable pub required_of :
    (name : ℕ) → Option Attribute × Attributes → Result Reason (Attribute × Attributes)
required_of name (none, attrs) = err (Reason.missing_attribute name)
required_of name (some a, attrs) =
    if a.name == b'm'
    then err (Reason.extension (attribute_offset a))
    else if not (a.name == name)
    then err (Reason.attribute_order a.name name)
    else ok (a, attrs)

-- `Attributes::required`
unfoldable pub required : Attributes → (name : ℕ) → Result Reason (Attribute × Attributes)
required attrs name = do found ← next attrs; required_of name found

-- `Names`, a set of letters in the bits of a u64: a bit is tested by a quotient and added where it is
-- not set
abbrev pub Names : Type 0
Names = ℕ

abbrev pub bit_index : (name : ℕ) → ℕ
bit_index name = if is_lowercase name then name - b'a' else name - b'A' + 26

-- `Names::bit`, `Names::contains` and `Names::insert`
abbrev pub bit : (name : ℕ) → ℕ
bit name = 2 ^ bit_index name

unfoldable pub contains : Names → (name : ℕ) → Bool
contains names name = names / bit name % 2 == 1

unfoldable pub insert : Names → (name : ℕ) → Names
insert names name = if contains names name then names else names + bit name

-- `is_nonce_char`, `is_value_char` and `is_scram_attribute`
abbrev pub is_nonce_char : ℕ → Bool
is_nonce_char b = leb 0x21 b && leb b 0x2b || leb 0x2d b && leb b 0x7e

abbrev pub is_value_char : ℕ → Bool
is_value_char b = leb 0x01 b && leb b 0x2b || leb 0x2d b && leb b 0x3c || leb 0x3e b && leb b 0x7f

abbrev pub is_scram_attribute : ℕ → Bool
is_scram_attribute n =
    n == b'a'
    || n == b'c'
    || n == b'e'
    || n == b'i'
    || n == b'm'
    || n == b'n'
    || n == b'p'
    || n == b'r'
    || n == b's'
    || n == b'v'

-- the tests of the loop of `Attributes::extensions` on one attribute: the names behind it
unfoldable pub admit_extension : Names → Attribute → Result Reason Names
admit_extension names a =
    if a.name == b'm'
    then err (Reason.extension (attribute_offset a))
    else if is_scram_attribute a.name
    then err (Reason.standard_extension a.name (attribute_offset a))
    else if contains names a.name
    then err (Reason.duplicate_attribute a.name (attribute_offset a))
    else elim (find_not is_value_char a.value) [
      | some (relative, byte) ↦ err (Reason.extension_value a.name (a.start + relative) byte)
      | none ↦ ok (insert names a.name)
    ]
