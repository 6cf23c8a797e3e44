-- ===== src/Resp/Tape/Events.antt =====
-- What a tape's cursor reads: the values of its chain, in their order.
use cartel.Base.{
  List, [], ap, arith, length, length-append, none, one_plus_u32, refl, some, sub_u32, suc, sym,
  u32_max, zero, ℕ, ◌++◌, ◌-◌, ◌∙◌, ◌∷◌, ◌≡◌, ◌≤◌,
}
use mathlib.Core.Path.{subst}
use cartel.Resp.Node.{kind, Kind, Key}
use cartel.Resp.Pool.{Pool, node}
use cartel.Resp.Pool.Ring.{Route, contents}
use cartel.Resp.Tape.{Cursor, event, batch, tape_cursor, children}

-- the nodes from `next` on are `ks`, one behind the other
unfoldable pub Follows : Pool → (next : Key) → List Key → Type 0
Follows p next [] = Unit
Follows p next (k ∷ ks) = (next ≡ k) × Follows p (node p next).next ks

-- the values that `event` gives, on fuel
pub events : Pool → (fuel : ℕ) → Cursor → List Kind
events p zero c = []
events p (suc fuel) c = elim (event p c) [
  | none ↦ []
  | some found ↦ found.value ∷ events p fuel found.cursor
]

Follows-Route :
    (p : Pool) (a : Key) (ks : List Key) (z : Key)
    → Route p a ks z
    → Follows p (node p a).next (ks ++ z ∷ [])
unfolding Route Follows
Follows-Route p a [] z r = (r, tt)
Follows-Route p a (k ∷ ks) z r = (
  r.0,
  subst (λ x. Follows p (node p x).next (ks ++ z ∷ [])) (sym r.0) (Follows-Route p k ks z r.1),
)

pub batch-some : (n : ℕ) (c : Cursor) → n ≤ c.remaining → batch n c ≡ some (children n c)
unfolding batch
batch-some n c h = ground arith

pub batch-none : (next : Key) → batch 1 (record { next = next; remaining = 0 }) ≡ none
unfolding batch
batch-none next = refl

event-none : (p : Pool) (next : Key) → event p (record { next = next; remaining = 0 }) ≡ none
unfolding event batch
event-none p next = refl

-- one value, and the cursor behind it
pub event-step :
    (p : Pool) (next : Key) (n : ℕ)
    → suc n ≤ u32_max
    → event p (record { next = next; remaining = suc n })
      ≡ some (record {
        value = kind (node p next);
        cursor = record { next = (node p next).next; remaining = n };
      })
unfolding event
event-step p next n small =
    let size : one_plus_u32 (sub_u32 (suc n) 1) - 1 ≡ n = omega arith in
    rw (batch-some 1 (record { next = next; remaining = suc n }) (omega arith), event)
      (ap
        (λ m. some (record {
          value = kind (node p next);
          cursor = record { next = (node p next).next; remaining = m };
        }))
        size)

events-contents :
    (p : Pool) (ks : List Key) (next : Key) (fuel : ℕ)
    → Follows p next ks
    → length ks ≤ fuel
    → length ks ≤ u32_max
    → events p fuel (record { next = next; remaining = length ks }) ≡ contents p ks
unfolding events Follows contents
events-contents p [] next zero f le small = refl
events-contents p [] next (suc fuel) f le small = rw (event-none p next, events)
events-contents p (k ∷ ks) next zero f le small = absurd (omega arith)
events-contents p (k ∷ ks) next (suc fuel) f le small =
    let ih = events-contents p ks (node p next).next fuel f.1 (omega arith) (omega arith) in
    rw (event-step p next (length ks) (omega arith), events)
      (ap
          (λ n.
            kind (node p n)
            ∷ events p fuel (record { next = (node p next).next; remaining = length ks }))
          f.0
        ∙ ap (λ rest. kind (node p k) ∷ rest) ih)

-- In a pool with a chain of at most 2^32 - 1 nodes: the events of the chain's tape are its values in
-- their order, and no more.
pub tape_events :
    (p : Pool) (ks : List Key) (t : Key) (fuel : ℕ)
    → Route p t ks t
    → suc (length ks) ≤ fuel
    → suc (length ks) ≤ u32_max
    → events p fuel (tape_cursor p (record { tail = t; len = suc (length ks) }))
      ≡ contents p (ks ++ t ∷ [])
tape_events p ks t fuel r le small =
    let size : length (ks ++ t ∷ []) ≡ suc (length ks) = omega (arith, length-append ks (t ∷ [])) in
    ap (λ n. events p fuel (record { next = (node p t).next; remaining = n })) (sym size)
    ∙ events-contents p (ks ++ t ∷ []) (node p t).next fuel (Follows-Route p t ks t r)
        (omega (arith, size)) (omega (arith, size))
