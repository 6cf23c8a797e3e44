-- ===== src/Resp/Pool/Chains.antt =====
-- The state of a pool: its free ring, a chain of values and the keys of the other chains.
use cartel.Base.{List, Option, [], arith, none, some, suc, ℕ, ◌++◌, ◌+◌, ◌∷◌, ◌≡◌, ◌≢◌, ◌≤◌}
use cartel.Resp.Node.{Key, key_offset}
use cartel.Resp.Pool.{Pool}
use cartel.Resp.Pool.Ring.{
  Route, tally, tally-append, tally_self, Route-move, other_of_tally, contents, SameNext,
  SameNext-split,
}

-- a ring, by the keys before its tail and its tail
abbrev pub Chain : Type 0
Chain = Option (List Key × Key)

abbrev pub keys : Chain → List Key
keys none = []
keys (some (ks, t)) = ks ++ t ∷ []

abbrev pub tail_of : Chain → Option Key
tail_of none = none
tail_of (some (ks, t)) = some t

abbrev pub IsChain : Pool → Chain → Type 0
IsChain p none = Unit
IsChain p (some (ks, t)) = Route p t ks t

-- a pool with this free ring, this chain and other keys in use; `used` counts each offset in them
pub record Holds (p : Pool) (free chain : Chain) (others : List Key) (used : ℕ → ℕ) : Type 0 where
  pub free_tail : p.free ≡ tail_of free
  pub free_ring : IsChain p free
  pub chain_ring : IsChain p chain
  pub counted : (o : ℕ) → tally o (keys free) + tally o (keys chain) + tally o others ≡ used o
  pub once : (o : ℕ) → used o ≤ 1

-- the nodes of the other chains keep their order and their values
pub record Keeps (p p' : Pool) (others : List Key) : Type 0 where
  pub order : SameNext p p' others
  pub values : contents p' others ≡ contents p others

-- two keys that are counted apart stand at two offsets
pub offset_ne_of_tally :
    (k x : Key) (xs : List Key)
    → tally (key_offset k) (xs ++ x ∷ []) ≡ 0
    → key_offset x ≢ key_offset k
offset_ne_of_tally k x xs h =
    other_of_tally k x [] (omega (arith, tally-append (key_offset k) xs (x ∷ []), h))

pub tally-last :
    (k : Key) (xs : List Key) → tally (key_offset k) (xs ++ k ∷ []) ≡ suc (tally (key_offset k) xs)
tally-last k xs = omega (arith, tally-append (key_offset k) xs (k ∷ []), tally_self k)

pub IsChain-keeps :
    (p p' : Pool) (chain : Chain) → SameNext p p' (keys chain) → IsChain p chain → IsChain p' chain
unfolding SameNext
IsChain-keeps p p' none same r = tt
IsChain-keeps p p' (some (ks, t)) same r =
    let (on_ks, on_t) = SameNext-split p p' ks (t ∷ []) same in
    Route-move p p' t t ks t on_t.0 on_ks r
