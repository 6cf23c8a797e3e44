-- ===== src/Pg/Scram/Next.antt =====
-- pg/src/protocol/scram/parser.rs: what `Attributes::next` takes off its tail.
use cartel.Base.{
  Bool-cases, Option, [], ap, arith, inl, inr, length, none, ok, some, sym, true, ℕ, ◌++◌, ◌+◌, ◌-◌,
  ◌<◌, ◌==◌, ◌∙◌, ◌∷◌, ◌≡◌, ◌≢◌, ◌≤◌,
}
use mathlib.Core.Path.{subst}
use mathlib.Core.List.{append-nil}
use cartel.Pg.Wire.{Wire, split_byte, prefixed}
use cartel.Pg.Scram.{
  Attribute, Attributes, value_and_tail, is_alphabetic, attribute_of, is_some_empty, next, next_in,
  parts_of,
}

-- the bytes behind an attribute: nothing, or a comma and the next ones
unfoldable pub behind : Option Wire → Wire
behind none = []
behind (some tail) = b',' ∷ tail

-- no byte of a value is a comma
pub NoComma : Wire → Type 0
NoComma [] = Unit
NoComma (b ∷ bs) = (b ≢ b',') × NoComma bs

-- what `next` promises of an attribute that it takes off `bytes`
pub record Taken (total : ℕ) (bytes : Wire) (a : Attribute) (attrs : Attributes) : Type 0 where
  pub letter : is_alphabetic a.name ≡ true
  pub some_value : 0 < length a.value
  pub text : bytes ≡ a.name ∷ b'=' ∷ (a.value ++ behind attrs.tail)
  pub no_comma : NoComma a.value
  pub begins : a.start ≡ total - length bytes + 2
  pub same_length : attrs.length ≡ total

abbrev Splits : Wire → Option (Wire × Wire) → Type 0
Splits body none = NoComma body
Splits body (some (head, tail)) = (body ≡ head ++ b',' ∷ tail) × NoComma head

split_byte-Splits : (body : Wire) → Splits body (split_byte b',' body)
unfolding split_byte NoComma
split_byte-Splits [] = tt
split_byte-Splits (b ∷ bs) = elim (Bool-cases (b == b',')) [
  | inl comma ↦ let is_comma : b ≡ b',' = ground arith in rw comma (ap (λ c. c ∷ bs) is_comma, tt)
  | inr other ↦
      let is_other : b ≢ b',' = λ e. ground arith in
      rw other (at is_other (split_byte b',' bs) (split_byte-Splits bs))
]
  where
    at : b ≢ b',' → (o : Option (Wire × Wire)) → Splits bs o → Splits (b ∷ bs) (prefixed b o)
    at is_other none s = (is_other, s)
    at is_other (some (head, tail)) s = (ap (λ ws. b ∷ ws) s.0, (is_other, s.1))

value_and_tail-joins :
    (body : Wire)
    → (body ≡ (value_and_tail body).0 ++ behind (value_and_tail body).1)
      × NoComma (value_and_tail body).0
unfolding behind
value_and_tail-joins body = at (split_byte b',' body) (split_byte-Splits body)
  where
    at :
        (o : Option (Wire × Wire))
        → Splits body o
        → (body ≡ (parts_of body o).0 ++ behind (parts_of body o).1) × NoComma (parts_of body o).0
    at none s = (sym (append-nil body), s)
    at (some (head, tail)) s = s

attribute_of-ok :
    (total name begin : ℕ) (parts : Wire × Option Wire) {a : Attribute} {attrs : Attributes}
    → attribute_of total name begin parts ≡ ok (some a, attrs)
    → (a ≡ record { name = name; value = parts.0; start = begin })
      × (attrs ≡ record { tail = parts.1; length = total })
      × (0 < length parts.0)
unfolding attribute_of
attribute_of-ok total name begin ([], tail) e = absurd (ground arith)
attribute_of-ok total name begin (b ∷ bs, tail) {a} {attrs} e =
    elim (Bool-cases (is_some_empty tail)) [
      | inl trailing ↦ absurd (ground arith)
      | inr fine ↦ ground arith
    ]

-- Of attributes with more bytes: if `Attributes::next` takes an attribute, then the bytes are its
-- name, which is a letter, `=`, its value, which is not empty and has no comma, and then nothing or a
-- comma and the bytes that are left; and the attribute knows the offset of its value.
pub next-Taken :
    (total : ℕ) (bytes : Wire) {a : Attribute} {attrs : Attributes}
    → next (record { tail = some bytes; length = total }) ≡ ok (some a, attrs)
    → length bytes ≤ total
    → Taken total bytes a attrs
unfolding next next_in
next-Taken total [] e h = absurd (cc)
next-Taken total (x ∷ []) e h = absurd (cc)
next-Taken total (x ∷ y ∷ []) e h = absurd (cc)
next-Taken total (name ∷ equals ∷ b ∷ bs) {a} {attrs} e h = elim (Bool-cases (is_alphabetic name)) [
  | inr bad ↦ absurd (ground arith)
  | inl letter ↦ elim (Bool-cases (equals == b'=')) [
    | inr bad ↦ absurd (ground arith)
    | inl is ↦
        let body = b ∷ bs in
        let (is_a, is_attrs, filled) =
          attribute_of-ok total name (total - length body) (value_and_tail body) {a = a}
            {attrs = attrs} (ground arith) in
        let (joined, commas) = value_and_tail-joins body in
        let sign : equals ≡ b'=' = ground arith in
        record {
          letter = ap (λ (q : Attribute). is_alphabetic q.name) is_a ∙ letter;
          some_value = subst (λ (q : Attribute). 0 < length q.value) (sym is_a) filled;
          text = cc (
            sign,
            joined,
            ap (λ (q : Attribute). q.name) is_a,
            ap (λ (q : Attribute). q.value) is_a,
            ap (λ (q : Attributes). q.tail) is_attrs,
          );
          no_comma = subst (λ (q : Attribute). NoComma q.value) (sym is_a) commas;
          begins = ap (λ (q : Attribute). q.start) is_a ∙ omega arith;
          same_length = ap (λ (q : Attributes). q.length) is_attrs;
        }
  ]
]
