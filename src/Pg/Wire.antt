-- ===== src/Pg/Wire.antt =====
-- pg/src/protocol/wire.rs: bytes whose length fits in a u32.
use cartel.Base.{Bool, List, Option, [], if◌then◌else◌, none, some, suc, ℕ, ◌==◌, ◌∷◌}

abbrev pub Wire : Type 0
Wire = List ℕ

-- a byte before the first part
abbrev pub prefixed : ℕ → Option (Wire × Wire) → Option (Wire × Wire)
prefixed b none = none
prefixed b (some (head, tail)) = some (b ∷ head, tail)

-- `Wire::split_byte`: the bytes before the first `byte`, and those behind it
unfoldable pub split_byte : (byte : ℕ) → Wire → Option (Wire × Wire)
split_byte byte [] = none
split_byte byte (b ∷ bs) = if b == byte then some ([], bs) else prefixed b (split_byte byte bs)

abbrev pub one_on : Option (ℕ × ℕ) → Option (ℕ × ℕ)
one_on none = none
one_on (some (i, c)) = some (suc i, c)

-- the position of the first byte that fails a test, and that byte
unfoldable pub find_not : (ℕ → Bool) → Wire → Option (ℕ × ℕ)
find_not test [] = none
find_not test (b ∷ bs) = if test b then one_on (find_not test bs) else some (0, b)
