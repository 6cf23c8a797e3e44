-- ===== src/Resp/Interface.antt =====
-- What the scanner uses of its surroundings: the receive buffer and the inline vector, which the
-- dope and o3 crates implement, and the tape builder, which `Resp.Builder` implements.
use cartel.Base.{Bool, List, Option, Result, length, ltb, none, ok, take, ℕ, ◌≡◌, ◌≤◌}
use cartel.Resp.Node.{Kind}
use cartel.Resp.Types.{Bytes}

-- `codec::Input` and `copy::Vec<_, MAX_DEPTH>`, over a type of source errors
pub record Input (E : Type 0) : Type 0 where
  -- `try_consumed(amount)`: an error, if it refuses
  pub try_consumed : Bytes → ℕ → Option E
  -- `try_prefix(offset, count)`: the bytes selected
  pub try_prefix : Bytes → (offset count : ℕ) → Result E Bytes
  -- whether `vacancy()` finds room behind these elements
  pub vacancy : List ℕ → Bool

-- What the scanner relies on: a selection inside the buffer is granted, and the vector holds
-- MAX_DEPTH elements.
pub record IsLawful {E : Type 0} (input : Input E) : Type 0 where
  pub consumed : (bytes : Bytes) (n : ℕ) → n ≤ length bytes → input.try_consumed bytes n ≡ none
  pub prefix :
      (bytes : Bytes) (n : ℕ) → n ≤ length bytes → input.try_prefix bytes 0 n ≡ ok (take n bytes)
  pub room : (left : List ℕ) → input.vacancy left ≡ ltb (length left) 64

-- the outcome of `Builder::try_push`, with the builder behind it; a refusal returns the slot
pub data Pushed (S : Type 0) : Type 0 where
  stored : S → Pushed S
  blocked full : (slot : ℕ) → S → Pushed S

-- `storage::Builder` and `storage::Stored`, over a type of builders and one of finished tapes
pub record Builder (S F : Type 0) : Type 0 where
  pub len : S → ℕ
  pub try_push : S → (slot : ℕ) → Kind → Pushed S
  pub reset : S → S
  pub finish : S → F × S
