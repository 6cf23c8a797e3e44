-- ===== src/Resp/Node/RoundTrip.antt =====
-- redis/src/protocol/parser/mod.rs: a node gives back the value that it was made with.
use cartel.Base.{ap, arith, false, i64_max, leb, refl, u32_max, u64_max, ℕ, ◌-◌, ◌<◌, ◌≡◌, ◌≤◌}
use cartel.Base.Int.{pos, negsuc}
use cartel.Resp.Node.{Kind, Key, kind, node_new, word_of_i64, i64_of_word}
use cartel.Resp.Body

-- what the scanner can put in a value: an i64, a span and a count of 32 bits
unfoldable pub IsStored : Kind → Type 0
IsStored (Kind.integer (pos n)) = n ≤ i64_max
IsStored (Kind.integer (negsuc n)) = n ≤ i64_max
IsStored (Kind.status span) = (0 < span) × (span ≤ u64_max)
IsStored (Kind.error span) = (0 < span) × (span ≤ u64_max)
IsStored (Kind.bulk span) = (0 < span) × (span ≤ u64_max)
IsStored (Kind.array len) = len ≤ u32_max
IsStored _ = Unit

span-round : (span : ℕ) → 0 < span → span ≤ u64_max → Body.from_stored (Body.stored span) ≡ span
unfolding Body.from_stored Body.stored
span-round span h k = ground arith

-- Of a value whose integer is an i64, whose span is a non-zero u64 and whose count is a u32: a node
-- made with it gives it back.
pub kind-node_new : (next : Key) (k : Kind) → IsStored k → kind (node_new next k) ≡ k
unfolding kind node_new IsStored i64_of_word word_of_i64
kind-node_new next Kind.nil h = refl
kind-node_new next Kind.ok_reply h = refl
kind-node_new next (Kind.status span) h = ap Kind.status (span-round span h.0 h.1)
kind-node_new next (Kind.error span) h = ap Kind.error (span-round span h.0 h.1)
kind-node_new next (Kind.bulk span) h = ap Kind.bulk (span-round span h.0 h.1)
kind-node_new next (Kind.array len) h = ap Kind.array (omega arith)
kind-node_new next (Kind.integer (pos n)) h = ground arith
kind-node_new next (Kind.integer (negsuc n)) h =
    let large : leb (u64_max - n) i64_max ≡ false = ground arith in
    let back : u64_max - (u64_max - n) ≡ n = omega arith in
    rw large (ap (λ m. Kind.integer (negsuc m)) back)
