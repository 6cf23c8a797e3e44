-- ===== src/Resp/Pool.antt =====
-- redis/src/protocol/parser/mod.rs: `Pool`, a fixed array of nodes whose free ones form a ring, and
-- `Free`, the reservation of its first node. A chain of values is a ring of the same array; each ring
-- is known by its tail, whose `next` is the head. The array is a function of the offset: the code
-- reads it unchecked, since every key comes from the array itself.
pub mod Ring
pub mod Chains
pub mod Release
pub mod Taken
pub mod New
pub mod Append
pub mod Tests
use cartel.Base.{Option, Result, as_u32, err, if◌then◌else◌, none, ok, some, ℕ, ◌+◌, ◌-◌, ◌==◌}
use cartel.Resp.Node.{Kind, Key, Node, key_new, key_offset, node_new, vacant, with_next}

pub record Pool : Type 0 where
  pub nodes : ℕ → Node
  pub free : Option Key

-- `Pool::node`, and a `set` of the cell that it returns
abbrev pub node : Pool → Key → Node
node p key = p.nodes (key_offset key)

abbrev pub set_node : Pool → Key → Node → Pool
set_node p key n = record p { nodes = λ i. if i == key_offset key then n else p.nodes i }

-- the closure of `Pool::try_new`
abbrev pub first_node : (capacity index : ℕ) → Node
first_node capacity index =
    vacant (key_new (as_u32 (if index + 1 == capacity then 0 else index + 1)))

-- `Pool::try_new`; `try_from_fn` is `Box::try_from_fn` of the o3 crate
unfoldable pub try_new :
    {E : Type 0} (try_from_fn : ℕ → (ℕ → Node) → Result E (ℕ → Node))
    → (capacity : ℕ) → Result E Pool
try_new try_from_fn capacity = elim (try_from_fn capacity (first_node capacity)) [
  | err error ↦ err error
  | ok nodes ↦ ok (record {
    nodes = nodes;
    free = if capacity == 0 then none else some (key_new (as_u32 (capacity - 1)));
  })
]

-- `Pool::reserve`: the tail of the free ring
abbrev pub reserve : Pool → Option Key
reserve p = p.free

-- `Pool::release`, once both rings are there
abbrev pub splice : Pool → (tail free : Key) → Pool
splice p tail free =
    let head = (node p tail).next in
    let first = (node p free).next in
    let p1 = set_node p tail (with_next (node p tail) first) in
    let p2 = set_node p1 free (with_next (node p1 free) head) in record p2 { free = some tail }

-- `Pool::release`
unfoldable pub release : Pool → Option Key → Pool
release p none = p
release p (some tail) = elim p.free [
  | none ↦ record p { free = some tail }
  | some free ↦ splice p tail free
]

-- `Pool::head`, `Pool::read` and `Pool::write`
abbrev pub head : Pool → Key → Key
head p tail = (node p tail).next

abbrev pub read : Pool → Key → Node
read = node

abbrev pub write : Pool → Key → Node → Pool
write = set_node

-- the first half of `Free::append`, which takes `key` off the free ring of tail `free`
abbrev pub taken : Pool → (free key : Key) → Pool
taken p free key =
    if key == free
    then record p { free = none }
    else set_node p free (with_next (node p free) (node p key).next)

-- its second half, which puts `key` behind the tail of a chain
abbrev pub linked : Pool → (key : Key) → Option Key → Kind → Pool
linked p key none value = set_node p key (node_new key value)
linked p key (some tail) value =
    let p1 = set_node p key (node_new (node p tail).next value) in
    set_node p1 tail (with_next (node p1 tail) key)

-- `Free::append` of the reservation `free`: the new tail of the chain
unfoldable pub append : Pool → (free : Key) → Option Key → Kind → Key × Pool
append p free tail value =
    let key = (node p free).next in (key, linked (taken p free key) key tail value)
