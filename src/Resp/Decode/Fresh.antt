-- ===== src/Resp/Decode/Fresh.antt =====
-- What a decode leaves of the scanner's state.
use cartel.Base.{ℕ, refl, none, some, ok, err, ◌≡◌, Result, Option, ◌∙◌}
use cartel.Resp.Decode.{
  Admission, Decoded, Failure, Parse, Parser, Session, decode, decoded_scan, deliver_error,
  deliver_failure, deliver_frame, retained, Frames,
}
use cartel.Resp.Interface.{IsLawful}
use cartel.Resp.Mode.{Scan, State, initial}
use cartel.Resp.Settle.{Setting}
use cartel.Resp.State.{scan}
use cartel.Resp.State.Bounded.{scan-Settles}
use cartel.Resp.State.Depth.{IsShallow, Settles}
use cartel.Resp.Types.{Bytes}

-- an emission does not touch the scanner's state
abbrev pub IsEmission : {E R H A S : Type 0} → Admission E R H A S → Type 0
IsEmission Admission.retry_input = Unit {0}
IsEmission {S = S} (Admission.ready emit) =
    (decoded : _) (parser : Parser S) → (emit decoded parser).1.0 ≡ parser.0

-- what a decode leaves: a state that waits, or the initial one
abbrev pub Starts : {T S : Type 0} → Result T (Parse T) × Parser S → Type 0
Starts (ok (Parse.item head consumed), (s, b)) = s ≡ initial
Starts (ok outcome, (s, b)) = IsShallow s
Starts (err head, (s, b)) = s ≡ initial

module _ {E F S R H A T : Type 0} (c : Setting E F S) (law : IsLawful c.input)
    (session : Session E R H A S T) (frames : Frames F S R H)
    (emits : (preview : Result E (Result Failure Bytes)) → IsEmission (session.admit preview)) where
  error-Starts : (error : E) (b : S) → Starts (deliver_error c session frames error (initial, b))
  error-Starts error b = on (session.admit (err error)) (emits (err error))
    where
      on :
          (a : Admission E R H A S)
          → IsEmission a
          → Starts {T = T} {S = S} (elim a [
            | Admission.retry_input ↦ (err session.retry, (initial, b))
            | Admission.ready emit ↦
                let (accepted, parser') = emit (err error) (initial, b) in
                (err (session.accept accepted), parser')
          ])
      on Admission.retry_input keeps = refl
      on (Admission.ready emit) keeps = keeps (err error) (initial, b)

  failure-Starts :
      (failure : Failure) (n : ℕ) (b : S)
      → Starts (deliver_failure c session frames failure n (initial, b))
  failure-Starts failure n b = on (session.admit (ok (err failure))) (emits (ok (err failure)))
    where
      on :
          (a : Admission E R H A S)
          → IsEmission a
          → Starts {T = T} {S = S} (elim a [
            | Admission.retry_input ↦ (ok (Parse.item session.retry n), (initial, c.store.reset b))
            | Admission.ready emit ↦
                let (accepted, parser) = emit (ok (Decoded.rejected failure)) (initial, b) in
                (ok (Parse.item (session.accept accepted) n), parser)
          ])
      on Admission.retry_input keeps = refl
      on (Admission.ready emit) keeps = keeps (ok (Decoded.rejected failure)) (initial, b)

  frame-Starts :
      (bytes : Bytes) (tape : F) (n : ℕ) (s : State) (b : S)
      → s ≡ initial
      → Starts (deliver_frame c session frames bytes tape n (s, b))
  frame-Starts bytes tape n s b start = on (session.admit (ok (ok bytes))) (emits (ok (ok bytes)))
    where
      on :
          (a : Admission E R H A S)
          → IsEmission a
          → Starts {T = T} {S = S} (elim a [
            | Admission.retry_input ↦ (
              ok (Parse.item session.retry n),
              (initial, frames.drop_frame tape (c.store.reset b)),
            )
            | Admission.ready emit ↦
                let (stored, b') = frames.into_stored bytes tape b in
                let (accepted, parser) = emit (ok (retained c session frames stored)) (s, b') in
                (ok (Parse.item (session.accept accepted) n), parser)
          ])
      on Admission.retry_input keeps = refl
      on (Admission.ready emit) keeps =
          keeps (ok (retained c session frames (frames.into_stored bytes tape b).0))
            (s, (frames.into_stored bytes tape b).1)
          ∙ start

  decoded_scan-Starts :
      (need : Option ℕ) (r : Scan E F × State × S)
      → Settles r
      → Starts (decoded_scan c session frames need r)
  unfolding decoded_scan
  decoded_scan-Starts need (Scan.source error, s, b) kept = error-Starts error (c.store.reset b)
  decoded_scan-Starts need (Scan.blocked, s, b) kept = kept
  decoded_scan-Starts none (Scan.pending, s, b) kept = kept
  decoded_scan-Starts (some n) (Scan.pending, s, b) kept = kept
  decoded_scan-Starts need (Scan.complete bytes tape n, s, b) kept =
      frame-Starts bytes tape n s b kept
  decoded_scan-Starts need (Scan.invalid error n, s, b) kept =
      failure-Starts (Failure.invalid error) n (c.store.reset b)
  decoded_scan-Starts need (Scan.frame_capacity error n, s, b) kept =
      failure-Starts (Failure.frame_capacity error) n (c.store.reset b)
  decoded_scan-Starts need (Scan.value_capacity error n, s, b) kept =
      failure-Starts (Failure.value_capacity error) n (c.store.reset b)
  decoded_scan-Starts need (Scan.retain_capacity, s, b) kept = kept
  decoded_scan-Starts need (Scan.out_of_fuel, s, b) kept = kept

  -- On a session whose emissions leave the scanner's state alone, from a state with at most 64 open arrays
  -- that have an element to come each: a decode that reports an item or an error leaves the initial state,
  -- so that the next reply starts afresh, and one that waits leaves a state with at most 64 open arrays.
  pub decode-Starts :
      (bytes : Bytes) (need : Option ℕ) (s : State) (b : S)
      → IsShallow s
      → Starts (decode c session frames bytes need (s, b))
  unfolding decode
  decode-Starts bytes need s b shallow =
      decoded_scan-Starts need (scan c bytes s b) (scan-Settles c law bytes s b shallow)
