-- ===== src/Resp/Node.antt =====
-- redis/src/protocol/parser/mod.rs: parsed values, pool keys and the packed nodes that hold them.
pub mod RoundTrip
use cartel.Base.{
  Option, Result, as_u32, err, i64_max, if◌then◌else◌, leb, none, ok, one_plus_u32, some, u64_max,
  ℕ, ◌-◌,
}
use cartel.Base.Int.{ℤ, pos, negsuc}
use cartel.Resp.Body

-- `Kind`, its spans as packed words
pub data Kind : Type 0 where
  nil ok_reply : Kind
  status error bulk : (span : ℕ) → Kind
  integer : ℤ → Kind
  array : (len : ℕ) → Kind

-- `Value`, which has no server error
pub data Value : Type 0 where
  nil ok_reply : Value
  status bulk : (span : ℕ) → Value
  integer : ℤ → Value
  array : (len : ℕ) → Value

-- `Key<S>`: the offset plus one. Its states, vacant and occupied, are told apart by the chains of
-- `Resp.Pool`.
abbrev pub Key : Type 0
Key = ℕ

-- `Key::new` and `Key::offset`
unfoldable pub key_new : ℕ → Key
key_new offset = one_plus_u32 offset

unfoldable pub key_offset : Key → ℕ
key_offset key = key - 1

pub data Tag : Type 0 where
  nil ok_reply status error integer bulk array : Tag

pub record Node : Type 0 where
  pub next : Key
  pub tag : Tag
  pub payload : ℕ

-- `Node::raw`
abbrev pub raw : Key → Tag → ℕ → Node
raw next tag payload = record { next = next; tag = tag; payload = payload }

-- `Node::vacant`
abbrev pub vacant : Key → Node
vacant next = raw next Tag.nil 0

-- `value as u64` and `payload as i64`
unfoldable pub word_of_i64 : ℤ → ℕ
word_of_i64 (pos n) = n
word_of_i64 (negsuc n) = u64_max - n

unfoldable pub i64_of_word : ℕ → ℤ
i64_of_word w = if leb w i64_max then pos w else negsuc (u64_max - w)

-- `Node::new`
unfoldable pub node_new : Key → Kind → Node
unfolding word_of_i64 Body.stored
node_new next Kind.nil = raw next Tag.nil 0
node_new next Kind.ok_reply = raw next Tag.ok_reply 0
node_new next (Kind.status span) = raw next Tag.status (Body.stored span)
node_new next (Kind.error span) = raw next Tag.error (Body.stored span)
node_new next (Kind.integer value) = raw next Tag.integer (word_of_i64 value)
node_new next (Kind.bulk span) = raw next Tag.bulk (Body.stored span)
node_new next (Kind.array len) = raw next Tag.array len

-- `Node::with_next` and `Node::with_free`
abbrev pub with_next : Node → Key → Node
with_next node next = record node { next = next }

-- `Node::kind`
abbrev kind_of : Tag → ℕ → Kind
kind_of Tag.nil payload = Kind.nil
kind_of Tag.ok_reply payload = Kind.ok_reply
kind_of Tag.status payload = Kind.status (Body.from_stored payload)
kind_of Tag.error payload = Kind.error (Body.from_stored payload)
kind_of Tag.integer payload = Kind.integer (i64_of_word payload)
kind_of Tag.bulk payload = Kind.bulk (Body.from_stored payload)
kind_of Tag.array payload = Kind.array (as_u32 payload)

unfoldable pub kind : Node → Kind
unfolding i64_of_word Body.from_stored
kind node = kind_of node.tag node.payload

-- `Node::try_value`: a server error is returned as its span
abbrev value_of : Tag → ℕ → Result ℕ Value
value_of Tag.error payload = err (Body.from_stored payload)
value_of Tag.nil payload = ok Value.nil
value_of Tag.ok_reply payload = ok Value.ok_reply
value_of Tag.status payload = ok (Value.status (Body.from_stored payload))
value_of Tag.integer payload = ok (Value.integer (i64_of_word payload))
value_of Tag.bulk payload = ok (Value.bulk (Body.from_stored payload))
value_of Tag.array payload = ok (Value.array (as_u32 payload))

unfoldable pub try_value : Node → Result ℕ Value
unfolding i64_of_word Body.from_stored
try_value node = value_of node.tag node.payload

-- `Node::maybe_span`
abbrev span_of : Tag → ℕ → Option ℕ
span_of Tag.bulk payload = some (Body.from_stored payload)
span_of Tag.nil payload = none
span_of _ payload = none

unfoldable pub maybe_span : Node → Option ℕ
unfolding Body.from_stored
maybe_span node = span_of node.tag node.payload
