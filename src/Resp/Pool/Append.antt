-- ===== src/Resp/Pool/Append.antt =====
-- redis/src/protocol/parser/mod.rs: `Free::append`.
use cartel.Base.{List, [], ap, arith, none, refl, some, sym, ℕ, ◌++◌, ◌∙◌, ◌∷◌, ◌≡◌}
use cartel.Resp.Pool.{node, set_node, Pool, taken, linked, append}
use cartel.Resp.Pool.Ring.{
  contents, Route-move, node-set_node, tally, SameNext-set_node, SameNext-refl, Route,
  contents-with_next, contents-set_node, tally_self, Route-append, contents-append, kind-with_next,
  node-set_node-other, tally-append, SameNext-trans,
}
use cartel.Resp.Node.RoundTrip.{IsStored, kind-node_new}
use mathlib.Core.Path.{subst}
use cartel.Resp.Node.{Kind, Key, node_new, Node, key_offset, with_next, kind}
use cartel.Resp.Pool.Chains.{
  Chain, Holds, IsChain-keeps, keys, tally-last, Keeps, tail_of, offset_ne_of_tally,
}
use cartel.Resp.Pool.Taken.{first_key, without_first, taken-Holds}

-- a chain with one more key at its end
abbrev pub appended : Chain → Key → Chain
appended none key = some ([], key)
appended (some (ks, t)) key = some (ks ++ t ∷ [], key)

next-node_new : (k : Key) (v : Kind) → (node_new k v).next ≡ k
unfolding node_new
next-node_new k v = ground arith

-- a chain with a new node at its end
linked-Holds :
    (p : Pool) (k : Key) (free chain : Chain) (others : List Key) (used : ℕ → ℕ) (v : Kind)
    → IsStored v
    → Holds p free chain (k ∷ others) used
    → Holds (linked p k (tail_of chain) v) free (appended chain k) others used
      × Keeps p (linked p k (tail_of chain) v) others
      × (contents (linked p k (tail_of chain) v) (keys (appended chain k))
          ≡ contents p (keys chain) ++ v ∷ [])
unfolding tally Route contents
linked-Holds p k free none others used v stored h =
    let at_k = h.counted (key_offset k) in
    let le = h.once (key_offset k) in
    let self = tally_self k in
    let p1 = set_node p k (node_new k v) in
    (
      record {
        free_tail = h.free_tail;
        free_ring =
            IsChain-keeps p p1 free
              (SameNext-set_node p p k _ (keys free) (omega arith) (SameNext-refl p (keys free)))
              h.free_ring;
        chain_ring = ap (λ (m : Node). m.next) (node-set_node p k _) ∙ next-node_new k v;
        counted = λ o. omega (arith, h.counted o);
        once = h.once;
      },
      record {
        order = SameNext-set_node p p k _ others (omega arith) (SameNext-refl p others);
        values = contents-set_node p k _ others (omega arith);
      },
      ap (λ (m : Node). kind m ∷ []) (node-set_node p k _)
          ∙ ap (λ w. w ∷ []) (kind-node_new k v stored),
    )
linked-Holds p k free (some (ks, t)) others used v stored h = (
  record {
    free_tail = h.free_tail;
    free_ring =
        IsChain-keeps p pb free
          (SameNext-set_node p pa t _ (keys free) off_t_free
            (SameNext-set_node p p k _ (keys free) off_k_free (SameNext-refl p (keys free))))
          h.free_ring;
    chain_ring =
        Route-append pb k t k ks []
          (Route-move p pb t k ks t next_k
            (SameNext-set_node p pa t _ ks off_t_ks
              (SameNext-set_node p p k _ ks off_k_ks (SameNext-refl p ks)))
            h.chain_ring)
          (ap (λ (m : Node). m.next) (node-set_node pa t _));
    counted = λ o. omega (arith, h.counted o, tally-append o (ks ++ t ∷ []) (k ∷ []));
    once = h.once;
  },
  record {
    order =
        SameNext-set_node p pa t _ others off_t_others
          (SameNext-set_node p p k _ others off_k_others (SameNext-refl p others));
    values = contents-with_next pa t k others ∙ contents-set_node p k _ others off_k_others;
  },
  contents-append pb (ks ++ t ∷ []) (k ∷ [])
      ∙ cc (
        contents-with_next pa t k (ks ++ t ∷ []) ∙ contents-set_node p k _ (ks ++ t ∷ []) off_k,
        kind-with_next pa t k k
            ∙ ap kind (node-set_node p k (node_new (node p t).next v))
            ∙ kind-node_new (node p t).next v stored,
      ),
)
  where
    pa : Pool
    pa = set_node p k (node_new (node p t).next v)

    pb : Pool
    pb = set_node pa t (with_next (node pa t) k)

    off_k_free : tally (key_offset k) (keys free) ≡ 0
    off_k_free = omega (arith, h.counted (key_offset k), h.once (key_offset k), tally_self k)

    off_k_others : tally (key_offset k) others ≡ 0
    off_k_others = omega (arith, h.counted (key_offset k), h.once (key_offset k), tally_self k)

    off_k : tally (key_offset k) (ks ++ t ∷ []) ≡ 0
    off_k = omega (arith, h.counted (key_offset k), h.once (key_offset k), tally_self k)

    off_k_ks : tally (key_offset k) ks ≡ 0
    off_k_ks = omega (arith, off_k, tally-append (key_offset k) ks (t ∷ []))

    off_t_free : tally (key_offset t) (keys free) ≡ 0
    off_t_free = omega (arith, h.counted (key_offset t), h.once (key_offset t), tally-last t ks)

    off_t_others : tally (key_offset t) others ≡ 0
    off_t_others = omega (arith, h.counted (key_offset t), h.once (key_offset t), tally-last t ks)

    off_t_ks : tally (key_offset t) ks ≡ 0
    off_t_ks = omega (arith, h.counted (key_offset t), h.once (key_offset t), tally-last t ks)

    next_k : (node pb k).next ≡ (node p t).next
    next_k =
        ap (λ (m : Node). m.next)
          (node-set_node-other pa t k _ (λ e. offset_ne_of_tally k t ks off_k (sym e)))
        ∙ ap (λ (m : Node). m.next) (node-set_node p k _)
        ∙ next-node_new (node p t).next v

-- what an append leaves, with the new tail `key`
pub record Appended (p : Pool) (free chain : Chain) (others : List Key) (used : ℕ → ℕ) (key : Key)
    (v : Kind) (r : Key × Pool) : Type 0 where
  pub tail : r.0 ≡ key
  pub holds : Holds r.1 free (appended chain key) others used
  pub keeps : Keeps p r.1 others
  pub last : contents r.1 (keys (appended chain key)) ≡ contents p (keys chain) ++ v ∷ []

-- In a pool with these rings and a free key, of a value that fits in a node: an append takes the first
-- key off the free ring and puts it, with the value, at the end of the chain. The rings hold the same
-- keys as before, and the other chains keep their order and their values.
pub append-Holds :
    (p : Pool) (fs : List Key) (f : Key) (chain : Chain) (others : List Key) (used : ℕ → ℕ)
    (v : Kind)
    → IsStored v
    → Holds p (some (fs, f)) chain others used
    → Appended p
        (without_first fs f)
        chain
        others
        used
        (first_key fs f)
        v
        (append p f (tail_of chain) v)
unfolding append Route
append-Holds p fs f chain others used v stored h =
    let k = first_key fs f in
    let (holds, same_chain, same, values) = taken-Holds p fs f chain others used h in
    let (linked_holds, keeps, last) =
      linked-Holds (taken p f k) k (without_first fs f) chain others used v stored holds in
    subst (Appended p (without_first fs f) chain others used k v)
      (ap (λ key. (key, linked (taken p f key) key (tail_of chain) v)) (sym (first fs h)))
      (record {
        tail = refl;
        holds = linked_holds;
        keeps = record {
          order = SameNext-trans p (taken p f k) _ others same keeps.order;
          values = keeps.values ∙ values others;
        };
        last = last ∙ ap (λ ws. ws ++ v ∷ []) (values (keys chain));
      })
  where
    first :
        (fs : List Key)
        → Holds p (some (fs, f)) chain others used
        → (node p f).next ≡ first_key fs f
    first [] h = h.free_ring
    first (k ∷ ks) h = h.free_ring.0
