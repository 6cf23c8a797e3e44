-- ===== src/Resp/Pool/Tests.antt =====
-- The properties of the pool at a pool of three nodes.
use cartel.Base.{Result, [], ap, arith, none, ok, refl, some, sym, ℕ, ◌+◌, ◌∷◌, ◌≡◌}
use cartel.Base.Int.{pos}
use cartel.Resp.Node.{Kind, key_new, key_offset, Node}
use cartel.Resp.Pool.{Pool, first_node, release, append, try_new}
use cartel.Resp.Pool.Ring.{Route, tally}
use cartel.Resp.Pool.Chains.{Holds, Keeps}
use cartel.Resp.Pool.Append.{Appended, append-Holds}
use cartel.Resp.Pool.Release.{release-Holds}
use cartel.Resp.Pool.New.{Fills, keys_from, try_new-Route}
use cartel.Resp.Node.RoundTrip.{IsStored}

abbrev three_nodes : Pool
three_nodes = record { nodes = first_node 3; free = some 3 }

abbrev used_keys : ℕ → ℕ
used_keys o = tally o (1 ∷ 2 ∷ 3 ∷ []) + tally o [] + tally o []

three_nodes-Holds : Holds three_nodes (some (1 ∷ 2 ∷ [], 3)) none [] used_keys
unfolding tally Route key_new key_offset
three_nodes-Holds = record {
  free_tail = refl;
  free_ring = (refl, (refl, refl));
  chain_ring = tt;
  counted = λ o. refl;
  once = λ o. ground arith;
}

five-IsStored : IsStored (Kind.integer (pos 5))
unfolding IsStored
five-IsStored = omega arith

append-Holds_example :
    Appended three_nodes
      (some (2 ∷ [], 3))
      none
      []
      used_keys
      1
      (Kind.integer (pos 5))
      (append three_nodes 3 none (Kind.integer (pos 5)))
append-Holds_example =
    append-Holds three_nodes (1 ∷ 2 ∷ []) 3 none [] used_keys (Kind.integer (pos 5)) five-IsStored
      three_nodes-Holds

abbrev one_pushed : Pool
one_pushed = (append three_nodes 3 none (Kind.integer (pos 5))).1

one_pushed-Holds : Holds one_pushed (some (2 ∷ [], 3)) (some ([], 1)) [] used_keys
one_pushed-Holds =
    (append-Holds three_nodes (1 ∷ 2 ∷ []) 3 none [] used_keys (Kind.integer (pos 5)) five-IsStored
      three_nodes-Holds).holds

release-Holds_example :
    Holds (release one_pushed (some 1)) (some (2 ∷ 3 ∷ [], 1)) none [] used_keys
    × Keeps one_pushed (release one_pushed (some 1)) []
release-Holds_example =
    release-Holds one_pushed (some (2 ∷ [], 3)) (some ([], 1)) [] used_keys one_pushed-Holds

-- an allocator that never fails
abbrev always : ℕ → (ℕ → Node) → Result (Unit {0}) (ℕ → Node)
always n f = ok f

ok_injective : {f g : ℕ → Node} → ◌≡◌ {A = Result (Unit {0}) (ℕ → Node)} (ok f) (ok g) → f ≡ g
ok_injective e = cc

always-Fills : Fills always
always-Fills = record { filled = λ n f nodes e i h. ap (λ g. g i) (sym (ok_injective e)) }

three_nodes-made : try_new always 3 ≡ ok three_nodes
unfolding try_new key_new
three_nodes-made = refl

try_new-Route_example : (three_nodes.free ≡ some 3) × Route three_nodes 3 (keys_from 1 2) 3
try_new-Route_example =
    try_new-Route always 2 {p = three_nodes} always-Fills (omega arith) three_nodes-made
