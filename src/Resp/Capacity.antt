-- ===== src/Resp/Capacity.antt =====
-- redis/src/protocol/parser/capacity.rs: how many nodes the storage of a port holds.
use cartel.Base.{
  Result, arith, as_u32, checked_add, checked_mul, err, if◌then◌else◌, ltb, min, none, ok, some,
  u32_max, u64_max, ℕ, ◌*◌, ◌+◌, ◌≡◌, ◌≤◌, ◌↔◌, sym, ◌∙◌, ap,
}

-- `Capacity`
pub record Capacity : Type 0 where
  pub nodes : ℕ
  pub connections : ℕ
  pub lanes : ℕ

-- `Error`
pub data CapacityError : Type 0 where
  lanes_overflow : (connections values : ℕ) → CapacityError
  total_overflow : (used retained : ℕ) → CapacityError
  above : (actual maximum : ℕ) → CapacityError

-- `Capacity::try_with`, on the total
unfoldable pub capacity_of : (conns active total : ℕ) → Result CapacityError Capacity
capacity_of conns active total =
    if ltb u32_max total
    then err (CapacityError.above total u32_max)
    else ok (record { nodes = as_u32 total; connections = conns; lanes = active })

-- `Capacity::try_with`; a `usize` has 64 bits
unfoldable pub try_with : (conns active frame retained : ℕ) → Result CapacityError Capacity
unfolding capacity_of
try_with conns active frame retained = elim (checked_mul u64_max active frame) [
  | none ↦ err (CapacityError.lanes_overflow active frame)
  | some lanes ↦ elim (checked_add u64_max lanes retained) [
    | none ↦ err (CapacityError.total_overflow lanes retained)
    | some total ↦ capacity_of conns active total
  ]
]

-- `Capacity::try_new`
abbrev pub try_new : (conns frame retained : ℕ) → Result CapacityError Capacity
try_new conns frame retained = try_with conns (min conns 4) frame retained

-- what fits is granted
try_with_fits :
    (conns active frame retained : ℕ)
    → active * frame + retained ≤ u32_max
    → try_with conns active frame retained
      ≡ ok (record { nodes = active * frame + retained; connections = conns; lanes = active })
unfolding try_with capacity_of
try_with_fits conns active frame retained h = ground arith

-- what is granted fits
try_with_granted :
    (conns active frame retained : ℕ) {c : Capacity}
    → try_with conns active frame retained ≡ ok c
    → (c.nodes ≡ active * frame + retained) × (c.nodes ≤ u32_max) × (c.lanes ≡ active)
unfolding try_with capacity_of
try_with_granted conns active frame retained {c} h = ground arith

ok_capacity : {c d : Capacity} → ◌≡◌ {A = Result CapacityError Capacity} (ok c) (ok d) → c ≡ d
ok_capacity e = cc

-- A capacity is granted exactly if the nodes of the lanes and those retained fit in a u32 together, and
-- then it has these nodes, connections and lanes.
pub try_with_exact :
    (conns active frame retained : ℕ) (c : Capacity)
    → (try_with conns active frame retained ≡ ok c) ↔ (
        (active * frame + retained ≤ u32_max)
        × (c ≡ record { nodes = active * frame + retained; connections = conns; lanes = active }))
try_with_exact conns active frame retained c = (
  λ granted.
      let (nodes, small, lanes) = try_with_granted conns active frame retained granted in
      let fits : active * frame + retained ≤ u32_max = omega (arith, nodes, small) in
      (fits, ok_capacity (sym granted ∙ try_with_fits conns active frame retained fits)),
  λ given. try_with_fits conns active frame retained given.0 ∙ ap ok (sym given.1),
)
