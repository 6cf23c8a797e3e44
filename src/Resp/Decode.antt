-- ===== src/Resp/Decode.antt =====
-- redis/src/protocol/mod.rs: the codec that a session drives, over the scanner. What the session admits and
-- emits is the dope crate's; `into_stored`, of parser/frame.rs, retains a frame through the o3 crate.
pub mod Fresh
use cartel.Base.{ℕ, none, some, ok, err, [], Result, ◌-◌, Option, ◌∷◌, length}
use cartel.Resp.Limit.{Brand, Exceeded, frame_next}
use cartel.Resp.Mode.{Scan, State, finish, initial}
use cartel.Resp.Settle.{Setting}
use cartel.Resp.State.{scan}
use cartel.Resp.Types.{Bytes, Error}

-- `Failure`
pub data Failure : Type 0 where
  invalid : Error → Failure
  frame_capacity : Exceeded Brand.frame → Failure
  value_capacity : Exceeded Brand.value → Failure

-- `Decoded`, over the frames retained and the errors of retention
pub data Decoded (R H : Type 0) : Type 0 where
  frame : R → Decoded R H
  rejected : Failure → Decoded R H
  retain : H → Decoded R H

-- `Parser`: the scanner's state and the builder
abbrev pub Parser : Type 0 → Type 0
Parser S = State × S

-- `codec::Admission`, with the emission behind it
pub data Admission (E R H A S : Type 0) : Type 0 where
  retry_input : Admission E R H A S
  ready : (emit : Result E (Decoded R H) → Parser S → A × Parser S) → Admission E R H A S

-- what the codec is given: the admission of a preview, and the two ways to make an outcome
pub record Session (E R H A S T : Type 0) : Type 0 where
  pub admit : Result E (Result Failure Bytes) → Admission E R H A S
  pub retry : T
  pub accept : A → T

-- what becomes of a frame: it is retained, or dropped with its tape
pub record Frames (F S R H : Type 0) : Type 0 where
  pub into_stored : Bytes → F → S → Result H R × S
  pub drop_frame : F → S → S

-- `codec::Parse`, with the model's own case for a scan out of fuel
pub data Parse (T : Type 0) : Type 0 where
  blocked capacity_exhausted out_of_fuel : Parse T
  more : (need : ℕ) → Parse T
  item : (head : T) (consumed : ℕ) → Parse T

-- `codec::Finish`
pub data Finish (T : Type 0) : Type 0 where
  empty : Finish T
  item : T → Finish T

module _ {E F S R H A T : Type 0} (c : Setting E F S) (session : Session E R H A S T)
    (frames : Frames F S R H) where
  -- `Parser::reset`
  abbrev pub parser_reset : S → Parser S
  parser_reset b = (initial, c.store.reset b)

  -- `Parser::finish`
  abbrev pub parser_finish : State → (actual : ℕ) → Failure
  parser_finish s actual = elim (frame_next c.byte_max (actual - 1)) [
    | ok end ↦ Failure.invalid (finish s end)
    | err error ↦ Failure.frame_capacity error
  ]

  -- a retained frame, or why there is none
  abbrev pub retained : Result H R → Decoded R H
  retained (ok value) = Decoded.frame value
  retained (err error) = Decoded.retain error

  -- the end of `decode`, for a frame
  abbrev pub deliver_frame :
      (frame : Bytes) (tape : F) (consumed : ℕ) → Parser S → Result T (Parse T) × Parser S
  deliver_frame bytes tape consumed (s, b) = elim (session.admit (ok (ok bytes))) [
    | Admission.retry_input ↦ (
      ok (Parse.item session.retry consumed),
      (initial, frames.drop_frame tape (c.store.reset b)),
    )
    | Admission.ready emit ↦
        let (stored, b') = frames.into_stored bytes tape b in
        let (accepted, parser) = emit (ok (retained stored)) (s, b') in
        (ok (Parse.item (session.accept accepted) consumed), parser)
  ]

  -- the same for a failure, behind the reset
  abbrev pub deliver_failure : Failure → (consumed : ℕ) → Parser S → Result T (Parse T) × Parser S
  deliver_failure failure consumed (s, b) = elim (session.admit (ok (err failure))) [
    | Admission.retry_input ↦ (ok (Parse.item session.retry consumed), parser_reset b)
    | Admission.ready emit ↦
        let (accepted, parser) = emit (ok (Decoded.rejected failure)) (s, b) in
        (ok (Parse.item (session.accept accepted) consumed), parser)
  ]

  -- an error of the source, behind the reset
  abbrev pub deliver_error : E → Parser S → Result T (Parse T) × Parser S
  deliver_error error parser = elim (session.admit (err error)) [
    | Admission.retry_input ↦ (err session.retry, parser)
    | Admission.ready emit ↦
        let (accepted, parser') = emit (err error) parser in
        (err (session.accept accepted), parser')
  ]

  -- `Codec::decode`, of what the scan returned; `need` is what `need_more` says
  unfoldable pub decoded_scan :
      (need : Option ℕ) → Scan E F × State × S → Result T (Parse T) × Parser S
  decoded_scan need (Scan.source error, s, b) = deliver_error error (parser_reset b)
  decoded_scan need (Scan.blocked, s, b) = (ok Parse.blocked, (s, b))
  decoded_scan none (Scan.pending, s, b) = (ok Parse.capacity_exhausted, (s, b))
  decoded_scan (some n) (Scan.pending, s, b) = (ok (Parse.more n), (s, b))
  decoded_scan need (Scan.complete bytes tape consumed, s, b) =
      deliver_frame bytes tape consumed (s, b)
  decoded_scan need (Scan.invalid error consumed, s, b) =
      deliver_failure (Failure.invalid error) consumed (parser_reset b)
  decoded_scan need (Scan.frame_capacity error consumed, s, b) =
      deliver_failure (Failure.frame_capacity error) consumed (parser_reset b)
  decoded_scan need (Scan.value_capacity error consumed, s, b) =
      deliver_failure (Failure.value_capacity error) consumed (parser_reset b)
  decoded_scan need (Scan.retain_capacity, s, b) = (ok Parse.capacity_exhausted, (s, b))
  decoded_scan need (Scan.out_of_fuel, s, b) = (ok Parse.out_of_fuel, (s, b))

  -- `Codec::decode`
  unfoldable pub decode : Bytes → (need : Option ℕ) → Parser S → Result T (Parse T) × Parser S
  unfolding decoded_scan
  decode bytes need (s, b) = decoded_scan need (scan c bytes s b)

  -- `Codec::finish`
  unfoldable pub decode_finish : Bytes → Parser S → Finish T × Parser S
  decode_finish [] (s, b) = (Finish.empty, parser_reset b)
  decode_finish (byte ∷ bytes) (s, b) =
      let failure = parser_finish s (length (byte ∷ bytes)) in
      elim (session.admit (ok (err failure))) [
        | Admission.retry_input ↦ (Finish.item session.retry, (s, b))
        | Admission.ready emit ↦
            let (accepted, parser) = emit (ok (Decoded.rejected failure)) (parser_reset b) in
            (Finish.item (session.accept accepted), parser)
      ]
