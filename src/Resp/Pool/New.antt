-- ===== src/Resp/Pool/New.antt =====
-- redis/src/protocol/parser/mod.rs: `Pool::try_new`.
use cartel.Base.{
  List, Result, [], ap, arith, as_u32, err, if◌then◌else◌, none, ok, refl, some, suc, u32_max, zero,
  ℕ, ◌+◌, ◌-◌, ◌<◌, ◌==◌, ◌∙◌, ◌∷◌, ◌≡◌, ◌≤◌,
}
use cartel.Resp.Node.{Key, Node, key_new, key_offset}
use cartel.Resp.Pool.{Pool, first_node, try_new, node}
use cartel.Resp.Pool.Ring.{Route}

-- `n` keys from `k` on
pub keys_from : (k n : ℕ) → List Key
keys_from k zero = []
keys_from k (suc n) = k ∷ keys_from (k + 1) n

-- What the pool relies on: an allocation that succeeds holds what the closure returns.
pub record Fills {E : Type 0} (try_from_fn : ℕ → (ℕ → Node) → Result E (ℕ → Node)) : Type 0 where
  pub filled :
      (n : ℕ) (f nodes : ℕ → Node) → try_from_fn n f ≡ ok nodes → (i : ℕ) → i < n → nodes i ≡ f i

run :
    (p : Pool) (capacity k n : ℕ)
    → capacity ≤ u32_max
    → ((i : ℕ) → i < capacity → p.nodes i ≡ first_node capacity i)
    → 0 < k
    → k + n + 1 ≡ capacity
    → Route p k (keys_from (k + 1) n) capacity
unfolding Route keys_from key_new key_offset
run p capacity k zero small filled pos e =
    ap (λ (m : Node). m.next) (filled (k - 1) (omega arith)) ∙ ground arith
run p capacity k (suc n) small filled pos e = (
  ap (λ (m : Node). m.next) (filled (k - 1) (omega arith)) ∙ ground arith,
  run p capacity (k + 1) n small filled (omega arith) (omega arith),
)

-- the fields of a new pool
try_new-fields :
    {E : Type 0} (try_from_fn : ℕ → (ℕ → Node) → Result E (ℕ → Node)) (capacity : ℕ) {p : Pool}
    → Fills try_from_fn
    → capacity + 1 ≤ u32_max
    → try_new try_from_fn (capacity + 1) ≡ ok p
    → (p.free ≡ some (capacity + 1))
      × ((i : ℕ) → i < capacity + 1 → p.nodes i ≡ first_node (capacity + 1) i)
unfolding try_new key_new
try_new-fields {E} try_from_fn capacity {p} fills small e =
    at (try_from_fn (capacity + 1) (first_node (capacity + 1))) refl
  where
    made : (ℕ → Node) → Pool
    made nodes = record {
      nodes = nodes;
      free = if capacity + 1 == 0 then none else some (key_new (as_u32 (capacity + 1 - 1)));
    }

    at :
        (r : Result E (ℕ → Node))
        → try_from_fn (capacity + 1) (first_node (capacity + 1)) ≡ r
        → (p.free ≡ some (capacity + 1))
          × ((i : ℕ) → i < capacity + 1 → p.nodes i ≡ first_node (capacity + 1) i)
    at (err error) h = absurd (ground arith)
    at (ok nodes) h =
        let pools : p ≡ made nodes = ground arith in
        (
          ap (λ (q : Pool). q.free) pools ∙ ground arith,
          λ i lt. ap (λ (q : Pool). q.nodes i) pools ∙ fills.filled _ _ nodes h i lt,
        )

-- A pool of one node or more, of at most 2^32 - 1, starts with all its keys in its free ring, from 1
-- to its capacity.
pub try_new-Route :
    {E : Type 0} (try_from_fn : ℕ → (ℕ → Node) → Result E (ℕ → Node)) (capacity : ℕ) {p : Pool}
    → Fills try_from_fn
    → capacity + 1 ≤ u32_max
    → try_new try_from_fn (capacity + 1) ≡ ok p
    → (p.free ≡ some (capacity + 1)) × Route p (capacity + 1) (keys_from 1 capacity) (capacity + 1)
unfolding try_new Route keys_from key_new key_offset
try_new-Route try_from_fn capacity {p} fills small e =
    let (free, filled) = try_new-fields try_from_fn capacity fills small e in
    (free, at capacity small filled)
  where
    at_index : (n : ℕ) → node p (suc n + 1) ≡ p.nodes (suc n)
    at_index n = ap p.nodes (omega arith)

    at :
        (n : ℕ)
        → n + 1 ≤ u32_max
        → ((i : ℕ) → i < n + 1 → p.nodes i ≡ first_node (n + 1) i)
        → Route p (n + 1) (keys_from 1 n) (n + 1)
    at zero small filled = ap (λ (m : Node). m.next) (filled 0 (omega arith)) ∙ ground arith
    at (suc n) small filled = (
      ap (λ (m : Node). m.next) (at_index n ∙ filled (suc n) (omega arith)) ∙ ground arith,
      run p (suc n + 1) 1 n small filled (omega arith) (omega arith),
    )
