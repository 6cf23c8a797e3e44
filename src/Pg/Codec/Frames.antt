-- ===== src/Pg/Codec/Frames.antt =====
-- pg/src/protocol/frame/codec.rs: a frame that is written is read.
use cartel.Base.{
  List, [], ap, arith, drop, length, length-append, none, ok, one_plus_u64, refl, sym, take,
  take-append, ℕ, ◌%◌, ◌++◌, ◌+◌, ◌-◌, ◌/◌, ◌<◌, ◌^◌, ◌∙◌, ◌∷◌, ◌≡◌, ◌≢◌, ◌≤◌,
}
use cartel.Pg.Wire.{Wire}
use cartel.Pg.Codec.{need, Input, Head, Parse, from_be_bytes, parse, parse_body}

-- What the codec relies on: a selection inside the buffer is granted.
pub record IsLawful {E N : Type 0} (input : Input E N) : Type 0 where
  pub consumed : (bytes : Wire) (n : ℕ) → n ≤ length bytes → input.try_consumed bytes n ≡ none
  pub prefix :
      (bytes : Wire) (offset n : ℕ)
      → offset ≤ n
      → n ≤ length bytes
      → input.try_prefix bytes offset n ≡ ok (take (n - offset) (drop offset bytes))

-- a length in network order
pub to_be_bytes : ℕ → Wire
to_be_bytes n = n / 16777216 % 256 ∷ n / 65536 % 256 ∷ n / 256 % 256 ∷ n % 256 ∷ []

-- a frame as the protocol describes it: a type, the length of all behind the type, and the payload
pub frame : (typ : ℕ) (payload : Wire) → Wire
frame typ payload = typ ∷ (to_be_bytes (4 + length payload) ++ payload)

take-all-append {ℓ} : {A : Type ℓ} (xs ys : List A) → take (length xs) (xs ++ ys) ≡ xs
take-all-append [] ys = refl
take-all-append (x ∷ xs) ys = ap (λ zs. x ∷ zs) (take-all-append xs ys)

from_be_bytes-to :
    (n : ℕ)
    → n < 2 ^ 32
    → from_be_bytes (n / 16777216 % 256) (n / 65536 % 256) (n / 256 % 256) (n % 256) ≡ n
from_be_bytes-to n h = omega arith

parse_body_complete :
    {E N : Type 0} (input : Input E N) (max_frame_bytes typ wire : ℕ) (bytes : Wire)
    → IsLawful input
    → max_frame_bytes < 2 ^ 32
    → 4 ≤ wire
    → wire < max_frame_bytes
    → wire + 1 ≤ length bytes
    → parse_body input max_frame_bytes bytes typ wire
      ≡ ok (Parse.item (Head.message typ (take (wire + 1 - 5) (drop 5 bytes))) (wire + 1))
unfolding parse_body
parse_body_complete input max_frame_bytes typ wire bytes law small minimum fits here =
    let granted = law.prefix bytes 5 (wire + 1) (omega arith) here in
    let count : one_plus_u64 (wire + 1 - 1) ≡ wire + 1 = omega arith in
    ground (arith, granted, count)

-- On an input that grants what lies inside the buffer: a frame shorter than the limit is parsed from
-- the front of the buffer, as its type and its payload, and all its bytes are consumed.
pub parse-frame :
    {E N : Type 0} (input : Input E N) (max_frame_bytes typ : ℕ) (payload rest : Wire)
    → IsLawful input
    → max_frame_bytes < 2 ^ 32
    → 4 + length payload < max_frame_bytes
    → parse input max_frame_bytes (frame typ payload ++ rest)
      ≡ ok (Parse.item (Head.message typ payload) (5 + length payload))
unfolding parse parse_body frame to_be_bytes
parse-frame input max_frame_bytes typ payload rest law small fits =
    parse_body_complete input max_frame_bytes typ wire (frame typ payload ++ rest) law small
      (omega arith) (omega arith) (omega (arith, length-append payload rest))
    ∙ ap ok (cc (count, shown))
  where
    wire : ℕ
    wire =
        from_be_bytes ((4 + length payload) / 16777216 % 256) ((4 + length payload) / 65536 % 256)
          ((4 + length payload) / 256 % 256) ((4 + length payload) % 256)

    is_wire : wire ≡ 4 + length payload
    is_wire = from_be_bytes-to (4 + length payload) (omega arith)

    text : take (length payload) (payload ++ rest) ≡ payload
    text = take-all-append payload rest

    count : wire + 1 ≡ 5 + length payload
    count = omega (arith, is_wire)

    shown : take (wire + 1 - 5) (drop 5 (frame typ payload ++ rest)) ≡ payload
    shown = ap (λ n. take n (payload ++ rest)) (omega (arith, is_wire)) ∙ text

need-item :
    {E N : Type 0} (input : Input E N) (bytes : Wire) (total : ℕ) {head : Head} {used : ℕ}
    → need input bytes total ≢ ok (Parse.item head used)
need-item input bytes total = λ e. ground arith

parse_body-message :
    {E N : Type 0} (input : Input E N) (max_frame_bytes typ wire : ℕ) (bytes : Wire) {t used : ℕ}
    {payload : Wire}
    → parse_body input max_frame_bytes bytes typ wire
      ≡ ok (Parse.item (Head.message t payload) used)
    → (4 ≤ wire) × (wire < max_frame_bytes) × (wire + 1 ≤ length bytes)
unfolding parse_body
parse_body-message input max_frame_bytes typ wire bytes {t} {used} {payload} e =
    (ground arith, ground arith, ground arith)

-- On an input that grants what lies inside the buffer: a message that is parsed is parsed again when
-- more bytes have arrived.
pub parse-append :
    {E N : Type 0} (input : Input E N) (max_frame_bytes : ℕ) (bytes more : Wire) {t used : ℕ}
    {payload : Wire}
    → IsLawful input
    → max_frame_bytes < 2 ^ 32
    → parse input max_frame_bytes bytes ≡ ok (Parse.item (Head.message t payload) used)
    → parse input max_frame_bytes (bytes ++ more) ≡ ok (Parse.item (Head.message t payload) used)
unfolding parse
parse-append input max_frame_bytes (typ ∷ a ∷ b ∷ c ∷ d ∷ rest) more {t} {used} {payload} law small
      e =
    let wire = from_be_bytes a b c d in
    let bytes = typ ∷ a ∷ b ∷ c ∷ d ∷ rest in
    let (minimum, fits, here) = parse_body-message input max_frame_bytes typ wire bytes e in
    parse_body_complete input max_frame_bytes typ wire (bytes ++ more) law small minimum fits
      (omega (arith, length-append rest more))
    ∙ ap (λ taken. ok (Parse.item (Head.message typ taken) (wire + 1)))
        (take-append (wire + 1 - 5) rest more (omega arith))
    ∙ sym (parse_body_complete input max_frame_bytes typ wire bytes law small minimum fits here)
    ∙ e
parse-append input max_frame_bytes _ more law small e = absurd (need-item input _ 5 e)
