-- ===== src/Resp/Pool/Taken.antt =====
-- redis/src/protocol/parser/mod.rs: the first half of `Free::append`.
use cartel.Base.{List, [], ap, arith, false, none, refl, some, true, ℕ, ◌==◌, ◌∷◌, ◌≡◌, ◌≢◌}
use cartel.Resp.Pool.{node, set_node, Pool, taken}
use cartel.Resp.Pool.Ring.{
  contents, SameNext-free, other_of_tally, SameNext, Route-move, node-set_node, tally,
  SameNext-set_node, SameNext-refl, Route, contents-free, contents-with_next,
}
use cartel.Resp.Node.{Key, Node, key_offset, with_next}
use cartel.Resp.Pool.Chains.{Chain, Holds, IsChain-keeps, keys, tally-last}

-- the first key of a free ring, and the ring without it
abbrev pub first_key : List Key → Key → Key
first_key [] f = f
first_key (k ∷ ks) f = k

abbrev pub without_first : List Key → Key → Chain
without_first [] f = none
without_first (k ∷ ks) f = some (ks, f)

eqb_false : {a b : ℕ} → a ≢ b → (a == b) ≡ false
eqb_false h = ground arith

-- what `taken` leaves: the first key is in no ring
pub taken-Holds :
    (p : Pool) (fs : List Key) (f : Key) (chain : Chain) (others : List Key) (used : ℕ → ℕ)
    → Holds p (some (fs, f)) chain others used
    → Holds (taken p f (first_key fs f)) (without_first fs f) chain (first_key fs f ∷ others) used
      × SameNext p (taken p f (first_key fs f)) (keys chain)
      × SameNext p (taken p f (first_key fs f)) others
      × ((ks : List Key) → contents (taken p f (first_key fs f)) ks ≡ contents p ks)
unfolding tally Route
taken-Holds p [] f chain others used h =
    let chain_same : SameNext p (record p { free = none }) (keys chain) =
      SameNext-free p p none (keys chain) (SameNext-refl p (keys chain)) in
    let self : (f == f) ≡ true = ground arith in
    rw self (
      record {
        free_tail = refl;
        free_ring = tt;
        chain_ring = IsChain-keeps p (record p { free = none }) chain chain_same h.chain_ring;
        counted = λ o. omega (arith, h.counted o);
        once = h.once;
      },
      chain_same,
      SameNext-free p p none others (SameNext-refl p others),
      λ ks. contents-free p none ks,
    )
taken-Holds p (k ∷ fs) f chain others used h =
    let once = h.counted (key_offset f) in
    let le = h.once (key_offset f) in
    let off_fs : tally (key_offset f) (k ∷ fs) ≡ 0 = omega (arith, tally-last f (k ∷ fs)) in
    let differ : key_offset k ≢ key_offset f = other_of_tally f k fs off_fs in
    let unequal : (k == f) ≡ false = eqb_false (λ e. differ (ap key_offset e)) in
    let p1 = set_node p f (with_next (node p f) (node p k).next) in
    let chain_same : SameNext p p1 (keys chain) =
      SameNext-set_node p p f _ (keys chain) (omega (arith, tally-last f (k ∷ fs)))
        (SameNext-refl p (keys chain)) in
    rw unequal (
      record {
        free_tail = h.free_tail;
        free_ring =
            Route-move p p1 k f fs f (ap (λ (m : Node). m.next) (node-set_node p f _))
              (SameNext-set_node p p f _ fs (omega arith) (SameNext-refl p fs)) h.free_ring.1;
        chain_ring = IsChain-keeps p p1 chain chain_same h.chain_ring;
        counted = λ o. omega (arith, h.counted o);
        once = h.once;
      },
      chain_same,
      SameNext-set_node p p f _ others (omega (arith, tally-last f (k ∷ fs)))
          (SameNext-refl p others),
      λ ks. contents-with_next p f _ ks,
    )
