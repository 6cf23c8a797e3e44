-- ===== src/Resp/Body.antt =====
-- redis/src/protocol/parser/limit.rs: `Body`, a start and a stop packed into one u64, and
-- redis/src/protocol/parser/mod.rs: `Span`, the same word as a validated byte range.
use cartel.Base.{add_u32, as_u32, one_plus_u32, one_plus_u64, u32_size, ℕ, ◌*◌, ◌+◌, ◌-◌, ◌/◌}

-- `Body::new`: the two words have no bit in common, so that their `|` is the sum
unfoldable pub new : (start stop : ℕ) → ℕ
new start stop = start + stop * u32_size

-- `Body::start`
unfoldable pub start : ℕ → ℕ
start body = as_u32 body

-- `Body::stop`
unfoldable pub stop : ℕ → ℕ
stop body = as_u32 (body / u32_size)

-- `Body::get`: the offset behind the trailing CRLF
abbrev pub get : ℕ → ℕ
get body = stop body + 2

-- `Body::end`
abbrev pub end : ℕ → ℕ
end body = one_plus_u32 (add_u32 (stop body) 1)

-- `Body::consumed`
abbrev pub consumed : ℕ → ℕ
consumed body = one_plus_u64 (end body - 1)

-- `Span::stored` and `Span::from_stored`
unfoldable pub stored : ℕ → ℕ
stored span = span - 1

unfoldable pub from_stored : ℕ → ℕ
from_stored word = one_plus_u64 word

-- `Span::parts`
unfoldable pub parts : ℕ → ℕ × ℕ
parts span = (as_u32 span, as_u32 (span / u32_size))
