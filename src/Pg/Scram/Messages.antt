-- ===== src/Pg/Scram/Messages.antt =====
-- pg/src/protocol/scram/parser.rs: the loop over extensions, and the first message of the server.
use cartel.Base.{
  Bool, Option, Result, [], and_then, checked_add, checked_mul, err, if◌then◌else◌, is_empty, leb,
  length, map_err, none, not, ok, some, suc, u32_max, zero, ℕ, ◌&&◌, ◌+◌, ◌-◌, ◌==◌, ◌>>=◌, ◌∷◌,
}
use cartel.Pg.Reason.{Number, Reason}
use cartel.Pg.Wire.{Wire, find_not}
use cartel.Pg.Scram.{
  Attribute, Attributes, attributes_new, next, required, Names, admit_extension, is_nonce_char,
}

-- the loop of `Attributes::extensions`, on fuel
unfoldable pub extensions_from : (fuel : ℕ) → Names → Attributes → Result Reason Names
extensions_from zero names attrs = err Reason.out_of_fuel
extensions_from (suc fuel) names attrs = elim (next attrs) [
  | err reason ↦ err reason
  | ok (none, _) ↦ ok names
  | ok (some a, attrs') ↦ elim (admit_extension names a) [
    | err reason ↦ err reason
    | ok names' ↦ extensions_from fuel names' attrs'
  ]
]

-- the bytes that are left
abbrev pub tail_length : Option Wire → ℕ
tail_length none = 0
tail_length (some bytes) = length bytes

-- `Attributes::extensions`: every attribute takes a byte or more
unfoldable pub extensions : Attributes → Result Reason Names
extensions attrs = extensions_from (tail_length attrs.tail + 1) 0 attrs

-- `u8::is_ascii_digit`
abbrev pub is_digit : ℕ → Bool
is_digit b = leb b'0' b && leb b b'9'

-- the loop of `positive_u32`
unfoldable pub positive_from : (value start relative : ℕ) → Wire → Result Number ℕ
positive_from value start relative [] = if value == 0 then err Number.zero else ok value
positive_from value start relative (b ∷ bs) =
    if not (is_digit b)
    then err (Number.invalid (start + relative) b)
    else elim (and_then (checked_mul u32_max value 10) (λ v. checked_add u32_max v (b - b'0'))) [
      | none ↦ err (Number.overflow (start + relative) b)
      | some next ↦ positive_from next start (relative + 1) bs
    ]

-- `positive_u32`
unfoldable pub positive_u32 : Wire → (start : ℕ) → Result Number ℕ
positive_u32 [] start = err Number.empty
positive_u32 (b ∷ bs) start =
    if b == b'0'
    then (if is_empty bs then err Number.zero else err (Number.leading_zero start))
    else positive_from 0 start 0 (b ∷ bs)

-- `ServerFirst`; a range is its start and its end
pub record ServerFirst : Type 0 where
  pub input : Wire
  pub nonce : ℕ × ℕ
  pub salt : ℕ × ℕ
  pub iterations : ℕ

abbrev pub range_of : Attribute → ℕ × ℕ
range_of a = (a.start, a.start + length a.value)

-- the test of the nonce
abbrev pub check_nonce : Attribute → Result Reason (Unit {0})
check_nonce nonce = elim (find_not is_nonce_char nonce.value) [
  | some (relative, byte) ↦ err (Reason.nonce_char (nonce.start + relative) byte)
  | none ↦ ok tt
]

-- `Parser::server_first`
unfoldable pub server_first : Wire → Result Reason ServerFirst
server_first bytes = do
  (nonce, a1) ← required (attributes_new bytes) b'r'
  _ ← check_nonce nonce
  (salt, a2) ← required a1 b's'
  (count, a3) ← required a2 b'i'
  iterations ← map_err Reason.iteration (positive_u32 count.value count.start)
  _ ← extensions a3
  ok (record {
    input = bytes;
    nonce = range_of nonce;
    salt = range_of salt;
    iterations = iterations;
  })
