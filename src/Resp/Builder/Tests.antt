-- ===== src/Resp/Builder/Tests.antt =====
-- A builder in a storage of three nodes and one lane.
use cartel.Base.{ℕ, refl, none, some, false, [], arith, ◌∷◌, List, ◌+◌, ◌≡◌}
use cartel.Base.Int.{pos}
use cartel.Resp.Builder.{Building, builder_new, try_push, append, acquire, finish}
use cartel.Resp.Builder.Built.{IsBuilt, Pushes, try_push-Pushes}
use cartel.Resp.Builder.Reads.{AreStored, push_all, Finishes, finish-push_all}
use cartel.Resp.Gate.{acquire, Phase, Fifo, Gate}
use cartel.Resp.Node.{word_of_i64, key_new, Kind, key_offset, node_new}
use cartel.Resp.Node.RoundTrip.{IsStored}
use cartel.Resp.Pool.{append, Pool, first_node}
use cartel.Resp.Pool.Ring.{Route, contents, tally}

-- a queue that no one is in
abbrev no_fifo : Fifo (Unit {0})
no_fifo = record {
  has_entry = λ q i. false;
  get = λ q i. none;
  push = λ q i t. q;
  clear = λ q i. q;
  next = λ q. none;
}

abbrev three_free : Pool
three_free = record { nodes = first_node 3; free = some 3 }

abbrev one_lane : Gate (Unit {0})
one_lane = record { active = 0; lanes = 1; waiters = tt; granted = λ i. none }

abbrev fresh : Building (Unit {0})
fresh = builder_new (record { tapes = three_free; gate = one_lane })

abbrev used_keys : ℕ → ℕ
used_keys o = tally o (1 ∷ 2 ∷ 3 ∷ []) + tally o [] + tally o []

fresh-IsBuilt : IsBuilt [] used_keys fresh []
unfolding tally Route key_offset contents key_new
fresh-IsBuilt = record {
  free = some (1 ∷ 2 ∷ [], 3);
  chain = none;
  holds = record {
    free_tail = refl;
    free_ring = (refl, (refl, refl));
    chain_ring = tt;
    counted = λ o. refl;
    once = λ o. ground arith;
  };
  tail = refl;
  len = refl;
  stands = refl;
}

five-IsStored : IsStored (Kind.integer (pos 5))
unfolding IsStored
five-IsStored = omega arith

try_push-Pushes_example :
    Pushes no_fifo [] used_keys fresh [] 1
      (Kind.integer (pos 5))
      (try_push no_fifo fresh 1 (Kind.integer (pos 5)))
try_push-Pushes_example =
    try_push-Pushes no_fifo [] used_keys fresh [] 1 (Kind.integer (pos 5)) five-IsStored refl
      fresh-IsBuilt

abbrev two_values : List Kind
two_values = Kind.integer (pos 5) ∷ Kind.nil ∷ []

two_values-AreStored : AreStored two_values
unfolding IsStored
two_values-AreStored = (omega arith, (tt, tt))

abbrev one_value : Pool
one_value = (append three_free 3 none (Kind.integer (pos 5))).1

abbrev after_two : Building (Unit {0})
after_two = record {
  storage = record {
    tapes = (append one_value 3 (some 1) Kind.nil).1;
    gate = record one_lane { active = 1 };
  };
  phase = Phase.held;
  tail = some 2;
  len = 2;
}

two_pushed : push_all no_fifo fresh two_values ≡ some after_two
unfolding push_all try_push acquire append node_new word_of_i64 key_new key_offset
two_pushed = refl

finish-push_all_example : Finishes [] used_keys 5 two_values (finish no_fifo after_two)
finish-push_all_example =
    finish-push_all no_fifo [] used_keys 5 fresh two_values {b' = after_two} fresh-IsBuilt
      two_values-AreStored (omega arith) (omega arith) two_pushed
