-- ===== src/Resp/State/Loop.antt =====
-- redis/src/protocol/parser/state.rs: the loop of `State::scan`, from states that differ in their
-- marks only.
use cartel.Base.{
  List, ap, arith, length, length-append, refl, suc, sym, zero, ℕ, ◌++◌, ◌+◌, ◌<◌, ◌∙◌, ◌≡◌, ◌≢◌,
  ◌≤◌,
}
use cartel.Resp.Limit.Resume.{resume_at}
use cartel.Resp.State.Erase.{
  erase_state, at_scan, erase, erase-scan_marker, erase-scan_bulk, scan_in,
}
use cartel.Resp.Limit.Bounds.{IsBound}
use cartel.Resp.Mode.{cursor, Scan, State, Mode, Round}
use cartel.Resp.Settle.{Setting}
use cartel.Resp.State.Progress.{Fits, ModeFits}
use cartel.Resp.State.Waiting.{Waits, Ends, Ends-round}
use native.Mathlib.Nat.{le_refl}
use cartel.Resp.Types.{Bytes}
use cartel.Resp.State.{scan_loop, round, round_in, scan_line}

-- a wait keeps the state fit for the same bytes
pub Fits-Waits :
    {E F S : Type 0} (c : Setting E F S) (p : Bytes) (s : State) (b : S) {s' : State} {b' : S}
    → Fits c p s
    → Waits c p s b s' b'
    → Fits c p s'
Fits-Waits c p s b f (Waits.same e _) = rw e f
Fits-Waits c p s b f (Waits.open_line kind start slot m h e _) =
    let inside : start ≤ length p = rw m at f.cursor_in in
    rw e (record {
      cursor_in = f.cursor_in;
      scan_in = omega arith;
      mode_fits = rw m (le_refl (resume_at p start));
    })

-- what is fit for some bytes is fit for more
pub Fits-append :
    {E F S : Type 0} (c : Setting E F S) (p q : Bytes) (s : State) → Fits c p s → Fits c (p ++ q) s
Fits-append c p q s f = record {
  cursor_in = omega (arith, f.cursor_in, length-append p q);
  scan_in = omega (arith, f.scan_in, length-append p q);
  mode_fits = at s.mode f.mode_fits;
}
  where
    at : (m : Mode) → ModeFits c p s.scan m → ModeFits c (p ++ q) s.scan m
    at Mode.start h = h
    at (Mode.marker end) h = h
    at (Mode.line kind start slot) h = omega (arith, length-append p q)
    at (Mode.bulk body slot) h = h

-- the outcome of a scan, less the mark of its state
abbrev pub outcome :
    {E F S : Type 0}
    → Scan E F × State × S
    → record { scan : Scan E F; left : List ℕ; mode : Mode; built : S }
outcome (o, s, b) = record { scan = o; left = s.left; mode = s.mode; built = b }

-- what is left to do behind a round
abbrev pub after : {E F S : Type 0} → Setting E F S → Bytes → ℕ → Round E F S → Scan E F × State × S
after c p fuel (Round.again s b) = scan_loop c p fuel s b
after c p fuel (Round.return o s b) = (o, s, b)

abbrev state_of : {E F S : Type 0} → Round E F S → State
state_of (Round.again s b) = s
state_of (Round.return o s b) = s

abbrev built_of : {E F S : Type 0} → Round E F S → S
built_of (Round.again s b) = b
built_of (Round.return o s b) = b

abbrev report_of :
    {E F S : Type 0}
    → Round E F S
    → record { scan : Scan E F; left : List ℕ; mode : Mode; built : S }
report_of (Round.again s b) = outcome (Scan.pending, s, b)
report_of (Round.return o s b) = outcome (o, s, b)

pub scan_loop-suc :
    {E F S : Type 0} (c : Setting E F S) (p : Bytes) (fuel : ℕ) (s : State) (b : S)
    → scan_loop c p (suc fuel) s b ≡ after c p fuel (round c p s b)
unfolding scan_loop
scan_loop-suc c p fuel s b = at (round c p s b) refl
  where
    at : (r : Round _ _ _) → round c p s b ≡ r → scan_loop c p (suc fuel) s b ≡ after c p fuel r
    at (Round.again s' b') e = rw (e, scan_loop)
    at (Round.return o s' b') e = rw (e, scan_loop)

round_in-erase :
    {E F S : Type 0} (c : Setting E F S) (p : Bytes) (s : State) (x : ℕ) (b : S) (m : Mode)
    → scan_in m x ≡ scan_in m s.scan
    → s.mode ≡ m
    → erase (round_in c p m (at_scan s x) b) ≡ erase (round_in c p m s b)
unfolding round_in scan_line
round_in-erase c p s x b Mode.start e m = erase-scan_marker c p s x b 0
round_in-erase c p s x b (Mode.marker end) e m = erase-scan_marker c p s x b end
round_in-erase c p s x b (Mode.line kind start slot) e m = rw e
round_in-erase c p s x b (Mode.bulk body slot) e m = erase-scan_bulk c p s x b body slot

at_scan-of-erase : (s t : State) → erase_state s ≡ erase_state t → t ≡ at_scan s t.scan
at_scan-of-erase s t e = λ i. record {
  scan = t.scan;
  left = (sym (ap (λ (u : State). u.left) e)) i;
  mode = (sym (ap (λ (u : State). u.mode) e)) i;
}

round-erase :
    {E F S : Type 0} (c : Setting E F S) (p : Bytes) (s t : State) (b : S)
    → erase_state s ≡ erase_state t
    → erase (round c p s b) ≡ erase (round c p t b)
round-erase c p s t b e =
    let modes : s.mode ≡ t.mode = ap (λ (u : State). u.mode) e in
    let scans : scan_in s.mode s.scan ≡ scan_in t.mode t.scan = ap (λ (u : State). u.scan) e in
    sym (round_in-erase c p s t.scan b s.mode (ap (λ m. scan_in m t.scan) modes ∙ sym scans) refl)
    ∙ ap (λ (u : State). erase (round c p u b)) (sym (at_scan-of-erase s t e))

module _ {E F S : Type 0} (c : Setting E F S) (v : IsBound c.byte_max) where
  -- With a round for each byte ahead the loop does not run out of fuel.
  pub scan_loop_ends :
      (fuel : ℕ) (p : Bytes) (s : State) (b : S)
      → Fits c p s
      → length p < fuel + cursor s.mode
      → (scan_loop c p fuel s b).0 ≢ Scan.out_of_fuel
  unfolding scan_loop
  scan_loop_ends zero p s b f h = absurd (omega (arith, f.cursor_in))
  scan_loop_ends (suc fuel) p s b f h =
      rw (scan_loop-suc c p fuel s b)
        (at (scan_loop_ends fuel p) (round c p s b) (Ends-round c v p s f b))
    where
      at :
          ((s : State) (b : S)
            → Fits c p s
            → length p < fuel + cursor s.mode
            → (scan_loop c p fuel s b).0 ≢ Scan.out_of_fuel)
          → (r : Round E F S) → Ends c p s b (cursor s.mode) r
          → (after c p fuel r).0 ≢ Scan.out_of_fuel
      at ih (Round.again s' b') (on, fits) = ih s' b' fits (omega arith)
      at ih (Round.return Scan.out_of_fuel s' b') e = absurd e
      at ih (Round.return o s' b') e = λ x. cc

  -- Two scans with enough fuel, from states that differ in their marks only.
  pub scan_loop-erase :
      (fuel more : ℕ) (p : Bytes) (s t : State) (b : S)
      → Fits c p s
      → Fits c p t
      → length p < fuel + cursor s.mode
      → length p < more + cursor t.mode
      → erase (round c p s b) ≡ erase (round c p t b)
      → outcome (scan_loop c p fuel s b) ≡ outcome (scan_loop c p more t b)
  scan_loop-erase zero more p s t b f g h k e = absurd (omega (arith, f.cursor_in))
  scan_loop-erase (suc fuel) zero p s t b f g h k e = absurd (omega (arith, g.cursor_in))
  scan_loop-erase (suc fuel) (suc more) p s t b f g h k e = rw (scan_loop-suc c p fuel s b) (
      rw (scan_loop-suc c p more t b) (
        at (scan_loop-erase fuel more p) (round c p s b) (round c p t b) (Ends-round c v p s f b)
          (Ends-round c v p t g b) e))
    where
      at :
          ((s t : State) (b : S)
            → Fits c p s
            → Fits c p t
            → length p < fuel + cursor s.mode
            → length p < more + cursor t.mode
            → erase (round c p s b) ≡ erase (round c p t b)
            → outcome (scan_loop c p fuel s b) ≡ outcome (scan_loop c p more t b))
          → (r r' : Round E F S) → Ends c p s b (cursor s.mode) r
          → Ends c p t b (cursor t.mode) r'
          → erase r ≡ erase r'
          → outcome (after c p fuel r) ≡ outcome (after c p more r')
      at ih (Round.again s1 b1) (Round.again t1 b2) (on, fits) (on', fits') e =
          let states : erase_state s1 ≡ erase_state t1 = ap state_of e in
          let builders : b1 ≡ b2 = ap built_of e in
          ih s1 t1 b1 fits fits' (omega arith) (omega arith) (round-erase c p s1 t1 b1 states)
          ∙ ap (λ b'. outcome (scan_loop c p more t1 b')) builders
      at ih (Round.again s1 b1) (Round.return o t1 b2) x y e = absurd (cc)
      at ih (Round.return o s1 b1) (Round.again t1 b2) x y e = absurd (cc)
      at ih (Round.return o s1 b1) (Round.return o' t1 b2) x y e = ap report_of e
