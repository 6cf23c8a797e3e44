-- ===== src/Resp/Builder/Built.antt =====
-- What a builder stands for: the list of the values pushed.
use mathlib.Core.Path.{subst}
use cartel.Base.{
  ℕ, suc, refl, none, some, [], arith, List, ◌++◌, length, ◌≡◌, ◌∷◌, length-append, inl, inr,
  Bool-cases, sym, ap, ◌∙◌,
}
use cartel.Resp.Builder.{Building, asked, drop_builder, push_free, reset, try_push}
use cartel.Resp.Gate.{Fifo, acquire}
use cartel.Resp.Interface.{Pushed}
use cartel.Resp.Node.{Key, Kind}
use cartel.Resp.Node.RoundTrip.{IsStored}
use cartel.Resp.Pool.{append, release, reserve}
use cartel.Resp.Pool.Append.{Appended, append-Holds, appended}
use cartel.Resp.Pool.Chains.{Chain, Holds, Keeps, keys, tail_of}
use cartel.Resp.Pool.Release.{release-Holds, released}
use cartel.Resp.Pool.Ring.{contents}
use cartel.Resp.Pool.Taken.{first_key, without_first}

-- The storage has a free ring, the builder's chain with these values, and the chains of other tapes and
-- builders, with the keys `others`.
pub record IsBuilt {Q : Type 0} (others : List Key) (used : ℕ → ℕ) (b : Building Q)
    (values : List Kind) : Type 0 where
  pub free : Chain
  pub chain : Chain
  pub holds : Holds b.storage.tapes free chain others used
  pub tail : b.tail ≡ tail_of chain
  pub len : b.len ≡ length (keys chain)
  pub stands : contents b.storage.tapes (keys chain) ≡ values

-- the chains of others as they were
abbrev pub Spares : {Q : Type 0} → (others : List Key) → (b b' : Building Q) → Type 0
Spares others b b' = Keeps b.storage.tapes b'.storage.tapes others

module _ {Q : Type 0} (fifo : Fifo Q) (others : List Key) (used : ℕ → ℕ) where
  -- what a push promises, by its outcome
  abbrev pub Pushes :
      (b : Building Q) (values : List Kind) (slot : ℕ) (value : Kind) → Pushed (Building Q) → Type 0
  Pushes b values slot value (Pushed.stored b') =
      IsBuilt others used b' (values ++ value ∷ []) × Spares others b b'
  Pushes b values slot value (Pushed.blocked slot' b') =
      (slot' ≡ slot) × IsBuilt others used b' values × (b'.storage.tapes ≡ b.storage.tapes)
  Pushes b values slot value (Pushed.full slot' b') =
      (slot' ≡ slot)
      × IsBuilt others used b' values
      × (b'.storage.tapes ≡ b.storage.tapes)
      × (b.storage.tapes.free ≡ none)

  asked-IsBuilt :
      (b : Building Q) (values : List Kind)
      → IsBuilt others used b values
      → IsBuilt others used (asked fifo b) values
  asked-IsBuilt b values built = record {
    free = built.free;
    chain = built.chain;
    holds = built.holds;
    tail = built.tail;
    len = built.len;
    stands = built.stands;
  }

  length-appended :
      (chain : Chain) (k : Key) → length (keys (appended chain k)) ≡ suc (length (keys chain))
  length-appended none k = refl
  length-appended (some (ks, t)) k = omega (arith, length-append (ks ++ t ∷ []) (k ∷ []))

  tail_of-appended : (chain : Chain) (k : Key) → tail_of (appended chain k) ≡ some k
  tail_of-appended none k = refl
  tail_of-appended (some (ks, t)) k = refl

  appended-IsBuilt :
      (b : Building Q) (values : List Kind) (slot : ℕ) (value : Kind) (fs : List Key) (f : Key)
      (chain : Chain)
      → IsStored value
      → slot ≡ suc b.len
      → Holds b.storage.tapes (some (fs, f)) chain others used
      → b.tail ≡ tail_of chain
      → b.len ≡ length (keys chain)
      → contents b.storage.tapes (keys chain) ≡ values
      → Pushes b values slot value (push_free fifo b slot value (some f))
  appended-IsBuilt b values slot value fs f chain stored at holds tail len same =
      let k = first_key fs f in
      let done =
        subst
          (λ t.
            Appended b.storage.tapes (without_first fs f) chain others used k value
              (append b.storage.tapes f t value))
          (sym tail) (append-Holds b.storage.tapes fs f chain others used value stored holds) in
      (
        record {
          free = without_first fs f;
          chain = appended chain k;
          holds = done.holds;
          tail = ap some done.tail ∙ sym (tail_of-appended chain k);
          len = omega (arith, at, len, length-appended chain k);
          stands = done.last ∙ ap (λ ws. ws ++ value ∷ []) same;
        },
        done.keeps,
      )

  push_free-Pushes :
      (b : Building Q) (values : List Kind) (slot : ℕ) (value : Kind)
      → IsStored value
      → slot ≡ suc b.len
      → IsBuilt others used b values
      → Pushes b values slot value (push_free fifo b slot value (reserve b.storage.tapes))
  push_free-Pushes b values slot value stored at built =
      subst (λ o. Pushes b values slot value (push_free fifo b slot value o))
        (sym built.holds.free_tail) (on built.free built.holds)
    where
      on :
          (free : Chain)
          → Holds b.storage.tapes free built.chain others used
          → Pushes b values slot value (push_free fifo b slot value (tail_of free))
      on (some (fs, f)) holds =
          appended-IsBuilt b values slot value fs f built.chain stored at holds built.tail built.len
            built.stands
      on none holds = (refl, built, refl, holds.free_tail)

  -- Of a builder that stands for a list of values, a value that fits in a node, and the next slot: a push
  -- that stores the value leaves the builder standing for the list with the value behind it, and the chains
  -- of others as they were. A push that is refused returns the slot and leaves the pool and the list as
  -- they were, and one that finds the storage full does so only where no node is free.
  pub try_push-Pushes :
      (b : Building Q) (values : List Kind) (slot : ℕ) (value : Kind)
      → IsStored value
      → slot ≡ suc b.len
      → IsBuilt others used b values
      → Pushes b values slot value (try_push fifo b slot value)
  unfolding try_push
  try_push-Pushes b values slot value stored at built =
      elim (Bool-cases (acquire fifo b.storage.gate b.phase).0) [
        | inl yes_held ↦ rw yes_held (
            push_free-Pushes (asked fifo b) values slot value stored at
              (asked-IsBuilt b values built))
        | inr blocked ↦ rw blocked (refl, asked-IsBuilt b values built, refl)
      ]

  -- Of a builder that stands for a list of values: a reset leaves one that stands for no value, and the
  -- chains of others as they were.
  pub reset-IsBuilt :
      (b : Building Q) (values : List Kind)
      → IsBuilt others used b values
      → IsBuilt others used (reset fifo b) [] × Spares others b (reset fifo b)
  unfolding reset drop_builder contents
  reset-IsBuilt b values built =
      let p = b.storage.tapes in
      let (holds, keeps) =
        subst
          (λ t.
            Holds (release p t) (released built.free built.chain) none others used
            × Keeps p (release p t) others)
          (sym built.tail) (release-Holds p built.free built.chain others used built.holds) in
      (
        record {
          free = released built.free built.chain;
          chain = none;
          holds = holds;
          tail = refl;
          len = refl;
          stands = refl;
        },
        keeps,
      )
