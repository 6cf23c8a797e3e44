-- ===== src/Core/Handoff.antt =====
-- core/src/handoff.rs: a request is published and its reply attached, or neither. The reply lanes are in the
-- region too, and `Attach::try_tagged` is an operation on it.
pub mod Atomic
use cartel.Base.{ℕ, ok, err, Result, map_err}
use cartel.Core.Queue.{Fair, Rejection, Weight, try_with}

-- `Failure`, over a type `A` of attach errors
pub data Failure (A C : Type 0) : Type 0 where
  reply : A → Failure A C
  queue : Rejection C → Failure A C

module _ {G T W C A K : Type 0} (fair : Fair G T W C) (weights : Weight W C) where
  -- the closure of `Lane::try_with`, a preparation of the queue
  abbrev pub queue_prepare :
      {I J P : Type 0} (prepare : G → K → I → Result (A × I) (P × J) × G) (tag : K)
      → G
      → I
      → Result (Failure A C × I) (P × J) × G
  queue_prepare prepare tag g input =
      let (prepared, g') = prepare g tag input in
      (map_err (λ (cause, input). (Failure.reply cause, input)) prepared, g')

  -- `Lane::try_with`
  abbrev pub handoff_with :
      {I J P R : Type 0} (prepare : G → K → I → Result (A × I) (P × J) × G) (build : J → P → T × R)
      → G
      → W
      → (tag : K) → I
      → Result (Failure A C × I) R × G
  handoff_with prepare build g charge tag input =
      try_with fair weights Failure.queue (queue_prepare prepare tag) build g charge input

  -- the closure of `Lane::try_publish`, around `Attach::try_tagged`
  abbrev pub attach_prepare :
      {I : Type 0} (try_tagged : G → K → Result A (Unit {0}) × G)
      → G
      → K
      → I
      → Result (A × I) (Unit {0} × I) × G
  attach_prepare try_tagged g tag input =
      let (attached, g') = try_tagged g tag in
      (elim attached [ ok done ↦ ok (tt, input) | err cause ↦ err (cause, input) ], g')

  -- `Lane::try_publish`
  abbrev pub try_publish :
      {I R : Type 0} (try_tagged : G → K → Result A (Unit {0}) × G) (build : I → T × R)
      → G
      → W
      → (tag : K) → I
      → Result (Failure A C × I) R × G
  try_publish try_tagged build g charge tag input =
      handoff_with (attach_prepare try_tagged) (λ input proof. build input) g charge tag input
