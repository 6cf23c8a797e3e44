-- ===== src/Resp/State/Tests.antt =====
-- Runs of the RESP scanner on a list of the pushed values, and its properties at concrete inputs.
use cartel.Base.{
  List, [], arith, drop, err, if◌then◌else◌, leb, length, ltb, none, ok, refl, some, take, ℕ, ◌++◌,
  ◌+◌, ◌∷◌, ◌≡◌, ◌≢◌, Option, Result,
}
use cartel.Resp.Limit.{
  text_break, value_array, find_text, line_at, find_in, position_crlf, find, value_next,
  position_break, frame_line, find_counted, frame_next, frame_check, count,
}
use cartel.Resp.Number.{unsigned, unsigned_from, number_length}
use cartel.Resp.State.Loop.{outcome}
use cartel.Resp.State.Waiting.{Ends, Ends-round}
use cartel.Resp.State.{
  round, admit_line, admit_marker, admit_slot, bad_line, found_line, line_of_marker, marker_kind,
  round_in, scan_line, scan_loop, scan_marker, scan_value, wait_line, scan,
}
use cartel.Resp.Mode.{Round, Mode, Scan, State, finish_left, initial}
use cartel.Resp.State.Resume.{scan_ends, scan-resume}
use cartel.Resp.Interface.{Input, Builder, Pushed, IsLawful}
use cartel.Resp.Limit.Bounds.{IsBound}
use cartel.Resp.Node.{Kind}
use cartel.Resp.Settle.{
  Setting, admit_array, complete_reply, open_array, push, push_line, scan_integer, scan_length,
  settle,
}
use cartel.Resp.State.Progress.{Fits}
use cartel.Resp.Decode.{Admission, Failure, Frames, Session, decode}
use cartel.Resp.Decode.Fresh.{IsEmission, Starts, decode-Starts}
use cartel.Resp.Mode.Left.{AllOpen}
use cartel.Resp.State.Depth.{IsShallow, Settles}
use cartel.Resp.State.Bounded.{scan-Settles}
use cartel.Resp.Types.{Bytes, Line}

-- a builder that keeps the pushed values, the last first
abbrev Pushes : Type 0
Pushes = List (ℕ × Kind)

abbrev list_builder : Builder Pushes Pushes
list_builder = record {
  len = λ b. length b;
  try_push = λ b slot kind. Pushed.stored ((slot, kind) ∷ b);
  reset = λ b. [];
  finish = λ b. (b, []);
}

abbrev list_input : Input Unit
list_input = record {
  try_consumed = λ bytes n. if leb n (length bytes) then none else some tt;
  try_prefix = λ bytes offset n.
      if leb (offset + n) (length bytes) then ok (take n (drop offset bytes)) else err tt;
  vacancy = λ left. ltb (length left) 64;
}

abbrev setting : Setting Unit Pushes Pushes
setting = record {
  input = list_input;
  store = list_builder;
  byte_max = record { value = 100 };
  node_max = record { value = 10 };
}

list_input-IsLawful : IsLawful list_input
list_input-IsLawful = record {
  consumed = λ bytes n h. ground arith;
  prefix = λ bytes n h. ground arith;
  room = λ left. refl;
}

setting-IsBound : IsBound setting.byte_max
setting-IsBound = record { positive = omega arith; fits = omega arith }

initial-Fits : (p : Bytes) → Fits setting p initial
initial-Fits p = record { cursor_in = omega arith; scan_in = omega arith; mode_fits = tt }

-- `*2\r\n:5` and the rest of the reply
abbrev first_bytes : Bytes
first_bytes = b'*' ∷ b'2' ∷ b'\r' ∷ b'\n' ∷ b':' ∷ b'5' ∷ []

abbrev rest_bytes : Bytes
rest_bytes = b'\r' ∷ b'\n' ∷ b'$' ∷ b'1' ∷ b'\r' ∷ b'\n' ∷ b'a' ∷ b'\r' ∷ b'\n' ∷ []

abbrev half_state : State
half_state = record { scan = 5; left = 2 ∷ []; mode = Mode.line Line.integer 5 2 }

scan-half : scan setting first_bytes initial [] ≡ (Scan.pending, half_state, (1, Kind.array 2) ∷ [])
unfolding scan scan_loop round_in scan_marker admit_marker admit_slot marker_kind line_of_marker
    scan_line found_line admit_line wait_line bad_line scan_value scan_length scan_integer
    admit_array open_array push_line push settle complete_reply finish_left find find_in
    find_counted find_text text_break line_at position_crlf position_break frame_next frame_line
    value_next value_array number_length unsigned unsigned_from count frame_check
scan-half = refl

scan-resume_example :
    outcome (scan setting (first_bytes ++ rest_bytes) initial [])
    ≡ outcome (scan setting (first_bytes ++ rest_bytes) half_state ((1, Kind.array 2) ∷ []))
scan-resume_example =
    scan-resume setting first_bytes rest_bytes initial half_state [] ((1, Kind.array 2) ∷ [])
      setting-IsBound (initial-Fits first_bytes) scan-half

scan_ends_example : (scan setting first_bytes initial []).0 ≢ Scan.out_of_fuel
scan_ends_example =
    scan_ends setting first_bytes initial [] setting-IsBound (initial-Fits first_bytes)

marked :
    round setting first_bytes initial []
    ≡ Round.again (record { scan = 1; left = []; mode = Mode.line Line.array 1 1 }) []
unfolding round_in scan_marker admit_marker admit_slot marker_kind line_of_marker frame_next
    value_next
marked = refl

Ends-round_example : Ends setting first_bytes initial [] 0 (round setting first_bytes initial [])
Ends-round_example =
    Ends-round setting setting-IsBound first_bytes initial (initial-Fits first_bytes) []

half_state-IsShallow : IsShallow half_state
unfolding AllOpen
half_state-IsShallow = record { nonempty = (omega arith, tt); bounded = omega arith }

scan-Settles_example :
    Settles (scan setting (first_bytes ++ rest_bytes) half_state ((1, Kind.array 2) ∷ []))
scan-Settles_example =
    scan-Settles setting list_input-IsLawful (first_bytes ++ rest_bytes) half_state
      ((1, Kind.array 2) ∷ []) half_state-IsShallow

-- a session that takes every reply, but for an empty one
abbrev session : Session Unit Bytes ℕ ℕ Pushes (Option ℕ)
session = record {
  admit = λ preview. elim preview [
    | ok (ok []) ↦ Admission.retry_input
    | _ ↦ Admission.ready (λ decoded parser. (1, parser))
  ];
  retry = none;
  accept = λ n. some n;
}

abbrev frames : Frames Pushes Pushes Bytes ℕ
frames = record { into_stored = λ bytes tape b. (ok bytes, b); drop_frame = λ tape b. b }

emissions : (preview : Result Unit (Result Failure Bytes)) → IsEmission (session.admit preview)
emissions (ok (ok [])) = tt
emissions (ok (ok (byte ∷ bytes))) = λ decoded parser. refl
emissions (ok (err failure)) = λ decoded parser. refl
emissions (err error) = λ decoded parser. refl

decode-Starts_example : Starts (
    decode setting session frames
      (first_bytes ++ rest_bytes)
      none
      (half_state, (1, Kind.array 2) ∷ []))
decode-Starts_example =
    decode-Starts setting list_input-IsLawful session frames emissions (first_bytes ++ rest_bytes)
      none half_state ((1, Kind.array 2) ∷ []) half_state-IsShallow
