-- ===== src/Resp/Pool/Release.antt =====
-- redis/src/protocol/parser/mod.rs: `Pool::release`.
use cartel.Base.{List, [], ap, arith, none, refl, some, ℕ, ◌++◌, ◌+◌, ◌∙◌, ◌∷◌, ◌≡◌, ◌≤◌}
use cartel.Resp.Node.{Key, Node, key_offset, with_next}
use cartel.Resp.Pool.{Pool, node, set_node, splice, release}
use cartel.Resp.Pool.Ring.{
  Route, tally, tally-append, contents, Route-append, Route-free, Route-move, SameNext-refl,
  SameNext-set_node, contents-free, contents-with_next, node-set_node, node-set_node-other,
  SameNext, SameNext-free,
}
use cartel.Resp.Pool.Chains.{Chain, tail_of, Holds, Keeps, tally-last, offset_ne_of_tally}

-- the free ring behind a release of `chain`
abbrev pub released : (free chain : Chain) → Chain
released free none = free
released none (some c) = some c
released (some (fs, f)) (some (ks, t)) = some (fs ++ f ∷ ks, t)

splice-Route :
    (p : Pool) (fs ks : List Key) (f t : Key)
    → Route p f fs f
    → Route p t ks t
    → ((o : ℕ) → tally o (fs ++ f ∷ []) + tally o (ks ++ t ∷ []) ≤ 1)
    → Route (splice p t f) t (fs ++ f ∷ ks) t
splice-Route p fs ks f t rf rt once = Route-free p2 (some t) t (fs ++ f ∷ ks) t (
    Route-append p2 t f t fs ks
      (Route-move p p2 f t fs f next_t
        (SameNext-set_node p p1 f _ fs off_f_fs
          (SameNext-set_node p p t _ fs off_t_fs (SameNext-refl p fs)))
        rf)
      (Route-move p p2 t f ks t next_f
        (SameNext-set_node p p1 f _ ks off_f_ks
          (SameNext-set_node p p t _ ks off_t_ks (SameNext-refl p ks)))
        rt))
  where
    p1 : Pool
    p1 = set_node p t (with_next (node p t) (node p f).next)

    p2 : Pool
    p2 = set_node p1 f (with_next (node p1 f) (node p t).next)

    off_t : tally (key_offset t) (fs ++ f ∷ []) ≡ 0
    off_t = omega (arith, once (key_offset t), tally-last t ks)

    off_f : tally (key_offset f) (ks ++ t ∷ []) ≡ 0
    off_f = omega (arith, once (key_offset f), tally-last f fs)

    off_t_fs : tally (key_offset t) fs ≡ 0
    off_t_fs = omega (arith, off_t, tally-append (key_offset t) fs (f ∷ []))

    off_f_ks : tally (key_offset f) ks ≡ 0
    off_f_ks = omega (arith, off_f, tally-append (key_offset f) ks (t ∷ []))

    off_f_fs : tally (key_offset f) fs ≡ 0
    off_f_fs = omega (arith, once (key_offset f), tally-last f fs)

    off_t_ks : tally (key_offset t) ks ≡ 0
    off_t_ks = omega (arith, once (key_offset t), tally-last t ks)

    next_t : (node p2 t).next ≡ (node p f).next
    next_t =
        ap (λ (m : Node). m.next) (node-set_node-other p1 f t _ (offset_ne_of_tally f t ks off_f))
        ∙ ap (λ (m : Node). m.next) (node-set_node p t _)

    next_f : (node p2 f).next ≡ (node p t).next
    next_f = ap (λ (m : Node). m.next) (node-set_node p1 f _)

release-some : (p : Pool) (t f : Key) → p.free ≡ some f → release p (some t) ≡ splice p t f
unfolding release
release-some p t f e = rw (e, release)

release-none :
    (p : Pool) (t : Key) → p.free ≡ none → release p (some t) ≡ record p { free = some t }
unfolding release
release-none p t e = rw (e, release)

splice-contents :
    (p : Pool) (t f : Key) (ks : List Key) → contents (splice p t f) ks ≡ contents p ks
splice-contents p t f ks =
    contents-free (set_node p1 f _) (some t) ks
    ∙ contents-with_next p1 f _ ks
    ∙ contents-with_next p t _ ks
  where
    p1 : Pool
    p1 = set_node p t (with_next (node p t) (node p f).next)

splice-SameNext :
    (p : Pool) (t f : Key) (ks : List Key)
    → tally (key_offset t) ks ≡ 0
    → tally (key_offset f) ks ≡ 0
    → SameNext p (splice p t f) ks
splice-SameNext p t f ks off_t off_f =
    SameNext-free p (set_node p1 f _) (some t) ks (
      SameNext-set_node p p1 f _ ks off_f (SameNext-set_node p p t _ ks off_t (SameNext-refl p ks)))
  where
    p1 : Pool
    p1 = set_node p t (with_next (node p t) (node p f).next)

-- In a pool with these rings: a release puts the chain at the end of the free ring, so that the rings
-- hold the same keys as before, and keeps the order and the values of the other chains.
pub release-Holds :
    (p : Pool) (free chain : Chain) (others : List Key) (used : ℕ → ℕ)
    → Holds p free chain others used
    → Holds (release p (tail_of chain)) (released free chain) none others used
      × Keeps p (release p (tail_of chain)) others
unfolding release tally Route
release-Holds p none none others used h =
    (h, record { order = SameNext-refl p others; values = refl })
release-Holds p (some (fs, f)) none others used h =
    (h, record { order = SameNext-refl p others; values = refl })
release-Holds p none (some (ks, t)) others used h = rw (release-none p t h.free_tail) (
  record {
    free_tail = refl;
    free_ring = Route-free p (some t) t ks t h.chain_ring;
    chain_ring = tt;
    counted = λ o. omega (arith, h.counted o);
    once = h.once;
  },
  record {
    order = SameNext-free p p (some t) others (SameNext-refl p others);
    values = contents-free p (some t) others;
  },
)
release-Holds p (some (fs, f)) (some (ks, t)) others used h = rw (release-some p t f h.free_tail) (
  record {
    free_tail = refl;
    free_ring =
        splice-Route p fs ks f t h.free_ring h.chain_ring
          (λ o. omega (arith, h.counted o, h.once o));
    chain_ring = tt;
    counted = λ o. omega (
      arith,
      h.counted o,
      tally-append o (fs ++ f ∷ ks) (t ∷ []),
      tally-append o fs (f ∷ ks),
      tally-append o fs (f ∷ []),
      tally-append o ks (t ∷ []),
    );
    once = h.once;
  },
  record {
    order =
        splice-SameNext p t f others
          (omega (arith, h.counted (key_offset t), h.once (key_offset t), tally-last t ks))
          (omega (arith, h.counted (key_offset f), h.once (key_offset f), tally-last f fs));
    values = splice-contents p t f others;
  },
)
