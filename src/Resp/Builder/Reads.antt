-- ===== src/Resp/Builder/Reads.antt =====
-- A tape reads as the values that were pushed into its builder.
use mathlib.Core.Path.{subst}
use mathlib.Core.List.{append-nil, append_assoc}
use cartel.Base.{
  ℕ, suc, refl, none, some, [], arith, List, Option, length, ◌∷◌, ◌≡◌, ◌++◌, ap, ◌≤◌, u32_max,
  length-append, ◌∙◌, sym,
}
use cartel.Resp.Builder.{Building, finish, try_push, tape_at}
use cartel.Resp.Builder.Built.{IsBuilt, Pushes, try_push-Pushes}
use cartel.Resp.Gate.{Fifo}
use cartel.Resp.Interface.{Pushed}
use cartel.Resp.Node.{Key, Kind}
use cartel.Resp.Node.RoundTrip.{IsStored}
use cartel.Resp.Pool.{Pool}
use cartel.Resp.Pool.Chains.{Chain, Holds, keys, tail_of}
use cartel.Resp.Pool.Ring.{contents, tally, tally-append}
use cartel.Resp.Tape.{Tape, tape_cursor}
use cartel.Resp.Tape.Events.{events, tape_events}

-- The tape has the length of these values and reads as them on this fuel, and the builder behind it is
-- empty and has the keys of the tape among those of others. There is no tape only where there is no value.
abbrev pub Finishes :
    {Q : Type 0}
    → (others : List Key) → (used : ℕ → ℕ) → (fuel : ℕ) → (values : List Kind)
    → Option Tape × Building Q
    → Type 0
Finishes others used fuel values (none, b) = values ≡ []
Finishes others used fuel values (some tape, b) =
    (tape.len ≡ length values)
    × (events b.storage.tapes fuel (tape_cursor b.storage.tapes tape) ≡ values)
    × ((ks : List Key) × IsBuilt (ks ++ others) used b [])

length-contents : (p : Pool) (ks : List Key) → length (contents p ks) ≡ length ks
unfolding contents
length-contents p [] = refl
length-contents p (k ∷ ks) = ap suc (length-contents p ks)

-- the values of a list, that they fit in nodes
abbrev pub AreStored : List Kind → Type 0
AreStored [] = Unit {0}
AreStored (v ∷ vs) = IsStored v × AreStored vs

module _ {Q : Type 0} (fifo : Fifo Q) where
  -- the pushes of a list of values, one behind the other, if none is refused
  unfoldable pub push_all : Building Q → List Kind → Option (Building Q)
  push_all b [] = some b
  push_all b (v ∷ vs) = elim (try_push fifo b (suc b.len) v) [
    | Pushed.stored b' ↦ push_all b' vs
    | Pushed.blocked slot b' ↦ none
    | Pushed.full slot b' ↦ none
  ]

module _ {Q : Type 0} (fifo : Fifo Q) (others : List Key) (used : ℕ → ℕ) where
  chain-Finishes :
      (fuel : ℕ) (b : Building Q) (ks : List Key) (t : Key) (free : Chain)
      → Holds b.storage.tapes free (some (ks, t)) others used
      → b.len ≡ suc (length ks)
      → suc (length ks) ≤ u32_max
      → suc (length ks) ≤ fuel
      → Finishes others used fuel
          (contents b.storage.tapes (ks ++ t ∷ []))
          (some (record { tail = t; len = b.len }), (finish fifo b).1)
  unfolding finish tally contents
  chain-Finishes fuel b ks t free holds len small enough =
      let size = length-contents b.storage.tapes (ks ++ t ∷ []) in
      let size' = length-append ks (t ∷ []) in
      (
        omega (arith, len, size, size'),
        ap
              (λ n.
                events b.storage.tapes fuel
                  (tape_cursor b.storage.tapes (record { tail = t; len = n })))
              len
            ∙ tape_events b.storage.tapes ks t fuel holds.chain_ring enough small,
        (
          ks ++ t ∷ [],
          record {
            free = free;
            chain = none;
            holds = record {
              free_tail = holds.free_tail;
              free_ring = holds.free_ring;
              chain_ring = tt;
              counted = λ o. omega (arith, holds.counted o, tally-append o (ks ++ t ∷ []) others);
              once = holds.once;
            };
            tail = refl;
            len = refl;
            stands = refl;
          },
        ),
      )

  -- what a finished builder leaves
  pub finish-Finishes :
      (fuel : ℕ) (b : Building Q) (values : List Kind)
      → IsBuilt others used b values
      → length values ≤ u32_max
      → length values ≤ fuel
      → Finishes others used fuel values (finish fifo b)
  unfolding finish contents
  finish-Finishes fuel b values built small enough =
      on built.chain built.holds built.tail built.len built.stands
    where
      on :
          (chain : Chain)
          → Holds b.storage.tapes built.free chain others used
          → b.tail ≡ tail_of chain
          → b.len ≡ length (keys chain)
          → contents b.storage.tapes (keys chain) ≡ values
          → Finishes others used fuel values (finish fifo b)
      on none holds tail len stands =
          subst (λ o. Finishes others used fuel values (tape_at b.len o, (finish fifo b).1))
            (sym tail) (sym stands)
      on (some (ks, t)) holds tail len stands =
          let size = length-contents b.storage.tapes (ks ++ t ∷ []) in
          let size' = length-append ks (t ∷ []) in
          let same = ap length stands in
          subst (λ o. Finishes others used fuel values (tape_at b.len o, (finish fifo b).1))
            (sym tail)
            (subst
              (λ vs.
                Finishes others used fuel vs
                  (some (record { tail = t; len = b.len }), (finish fifo b).1))
              stands
              (chain-Finishes fuel b ks t built.free holds (omega (arith, len, size'))
                (omega (arith, small, same, size, size'))
                (omega (arith, enough, same, size, size'))))

  push_all-IsBuilt :
      (b : Building Q) (values vs : List Kind) {b' : Building Q}
      → IsBuilt others used b values
      → AreStored vs
      → push_all fifo b vs ≡ some b'
      → IsBuilt others used b' (values ++ vs)
  unfolding push_all
  push_all-IsBuilt b values [] {b' = b'} built stored e =
      let same : b ≡ b' = cc in
      subst (λ vs. IsBuilt others used b' vs) (sym (append-nil values))
        (subst (λ c. IsBuilt others used c values) same built)
  push_all-IsBuilt b values (v ∷ vs) {b' = b'} built stored e =
      on (try_push fifo b (suc b.len) v)
        (try_push-Pushes fifo others used b values (suc b.len) v stored.0 refl built)
        (λ b1 built1 h. push_all-IsBuilt b1 (values ++ v ∷ []) vs built1 stored.1 h) e
    where
      on :
          (r : Pushed (Building Q))
          → Pushes fifo others used b values (suc b.len) v r
          → ((b1 : Building Q)
              → IsBuilt others used b1 (values ++ v ∷ [])
              → push_all fifo b1 vs ≡ some b'
              → IsBuilt others used b' ((values ++ v ∷ []) ++ vs))
          → elim r [
            | Pushed.stored b1 ↦ push_all fifo b1 vs
            | Pushed.blocked slot b1 ↦ none
            | Pushed.full slot b1 ↦ none
          ]
            ≡ some b'
          → IsBuilt others used b' (values ++ v ∷ vs)
      on (Pushed.stored b1) done go h =
          subst (IsBuilt others used b') (append_assoc values (v ∷ []) vs) (go b1 done.0 h)
      on (Pushed.blocked slot b1) done go h = absurd (cc)
      on (Pushed.full slot b1) done go h = absurd (cc)

  -- Of a builder that stands for no value: if values that fit in nodes, at most 2^32 - 1, are pushed one
  -- behind the other and none is refused, then the tape that is finished has as many values as there are
  -- and, on any fuel for at least these, its events are these values and no more. The builder behind it
  -- stands for no value.
  pub finish-push_all :
      (fuel : ℕ) (b : Building Q) (vs : List Kind) {b' : Building Q}
      → IsBuilt others used b []
      → AreStored vs
      → length vs ≤ u32_max
      → length vs ≤ fuel
      → push_all fifo b vs ≡ some b'
      → Finishes others used fuel vs (finish fifo b')
  finish-push_all fuel b vs {b' = b'} built stored small enough e =
      finish-Finishes fuel b' vs (push_all-IsBuilt b [] vs built stored e) small enough
