-- ===== src/Resp/State/Resume.antt =====
-- redis/src/protocol/parser/state.rs: `State::scan` ends, and it does not matter how the bytes of a
-- reply arrive.
use cartel.Base.{
  ap, arith, length, length-append, le→ltb, none, ok, refl, suc, sym, zero, ℕ, ◌++◌, ◌+◌, ◌<◌, ◌∙◌,
  ◌≡◌, ◌≢◌, ◌≤◌,
}
use mathlib.Core.Path.{subst}
use cartel.Resp.Mode.{cursor, Scan, State, Mode, Round}
use cartel.Resp.Settle.{Setting}
use cartel.Resp.Types.{Bytes, Line}
use cartel.Resp.State.{scan_loop, round, round_in, scan_line, found_line, scan}
use cartel.Resp.State.Loop.{
  scan_loop_ends, after, outcome, Fits-Waits, Fits-append, scan_loop-suc, scan_loop-erase,
}
use cartel.Resp.State.Extend.{round-append}
use cartel.Resp.Limit.{find}
use cartel.Resp.Limit.Resume.{resume_at, find-resume}
use cartel.Resp.State.Erase.{at_scan, erase, erase-found_line}
use cartel.Resp.Limit.Bounds.{IsBound}
use cartel.Resp.State.Progress.{Fits}
use cartel.Resp.State.Waiting.{Waits, Ends, Ends-round}

-- a line that waited, on the longer buffer, with its old mark and with its new one
erase-open_line :
    {E F S : Type 0} (c : Setting E F S) (p q : Bytes) (s : State) (b : S)
    → Fits c p s
    → (kind : Line) (start slot : ℕ) → s.mode ≡ Mode.line kind start slot
    → find p start s.scan kind ≡ ok none
    → erase (round c (p ++ q) s b) ≡ erase (round c (p ++ q) (at_scan s (resume_at p start)) b)
unfolding round_in scan_line
erase-open_line c p q s b f kind start slot m h =
    let inside : start ≤ length p = rw m at f.cursor_in in
    let marked : s.scan ≤ resume_at p start = rw m at f.mode_fits in
    ap (λ n. erase (round_in c (p ++ q) n s b)) m
    ∙ ap (λ r. erase (found_line c (p ++ q) s b kind start slot r))
        (find-resume kind p q start s.scan inside marked h)
    ∙ sym (erase-found_line c (p ++ q) s (resume_at p start) b kind start slot _)
    ∙ sym (ap (λ n. erase (round_in c (p ++ q) n (at_scan s (resume_at p start)) b)) m)

module _ {E F S : Type 0} (c : Setting E F S) (v : IsBound c.byte_max) (p q : Bytes) (s' : State)
    (b' : S) where
  -- the two scans of the longer buffer agree, whatever their fuel, if it is enough
  Agree : State → S → Type 0
  Agree s b =
      (more more' : ℕ)
      → length (p ++ q) < more + cursor s.mode
      → length (p ++ q) < more' + cursor s'.mode
      → outcome (scan_loop c (p ++ q) more s b) ≡ outcome (scan_loop c (p ++ q) more' s' b')

  Agree-Waits : (s : State) (b : S) → Fits c p s → Waits c p s b s' b' → Agree s b
  unfolding Agree
  Agree-Waits s b f w more more' h k =
      scan_loop-erase c v more more' (p ++ q) s s' b (Fits-append c p q s f)
        (Fits-append c p q s' (Fits-Waits c p s b f w)) h k (same w)
      ∙ ap (λ b'. outcome (scan_loop c (p ++ q) more' s' b')) (sym (built w))
    where
      same : Waits c p s b s' b' → erase (round c (p ++ q) s b) ≡ erase (round c (p ++ q) s' b)
      same (Waits.same e _) = ap (λ u. erase (round c (p ++ q) u b)) (sym e)
      same (Waits.open_line kind start slot m found e _) =
          erase-open_line c p q s b f kind start slot m found
          ∙ ap (λ u. erase (round c (p ++ q) u b)) (sym e)

      built : Waits c p s b s' b' → b' ≡ b
      built (Waits.same _ e) = e
      built (Waits.open_line kind start slot m found _ e) = e

  Agree-again :
      (s : State) (b : S) (s1 : State) (b1 : S)
      → round c p s b ≡ Round.again s1 b1
      → cursor s.mode < cursor s1.mode
      → cursor s1.mode ≤ length p
      → Agree s1 b1
      → Agree s b
  unfolding Agree
  Agree-again s b s1 b1 r on inside agree zero more' h k = absurd (omega (arith, length-append p q))
  Agree-again s b s1 b1 r on inside agree (suc more) more' h k =
      ap outcome
        (scan_loop-suc c (p ++ q) more s b ∙ ap (after c (p ++ q) more) (round-append c p q s b r))
      ∙ agree more more' (omega arith) k

  -- After a wait the loop on a longer buffer goes on as if it had had all the bytes at first.
  scan_loop-resume :
      (fuel : ℕ) (s : State) (b : S)
      → Fits c p s
      → scan_loop c p fuel s b ≡ (Scan.pending, s', b')
      → Agree s b
  unfolding scan_loop
  scan_loop-resume zero s b f e = absurd (cc)
  scan_loop-resume (suc fuel) s b f e =
      at (scan_loop-resume fuel) (round c p s b) refl (Ends-round c v p s f b)
        (sym (scan_loop-suc c p fuel s b) ∙ e)
    where
      at :
          ((s : State) (b : S)
            → Fits c p s
            → scan_loop c p fuel s b ≡ (Scan.pending, s', b')
            → Agree s b)
          → (r : Round E F S) → round c p s b ≡ r
          → Ends c p s b (cursor s.mode) r
          → after c p fuel r ≡ (Scan.pending, s', b')
          → Agree s b
      at ih (Round.again s1 b1) r (on, fits) e =
          Agree-again s b s1 b1 r on fits.cursor_in (ih s1 b1 fits e)
      at ih (Round.return Scan.pending s1 b1) r w e = Agree-Waits s b f (
          subst (λ u. Waits c p s b u b') (ap (λ (r : _ × State × S). r.1) e)
            (subst (λ u. Waits c p s b s1 u) (ap (λ (r : _ × State × S). r.2) e) w))
      at ih (Round.return _ s1 b1) r w e = absurd (cc)

  -- the state of a wait is fit for the bytes it was left with
  scan_loop-Fits :
      (fuel : ℕ) (s : State) (b : S)
      → Fits c p s
      → scan_loop c p fuel s b ≡ (Scan.pending, s', b')
      → Fits c p s'
  unfolding scan_loop
  scan_loop-Fits zero s b f e = absurd (cc)
  scan_loop-Fits (suc fuel) s b f e =
      at (scan_loop-Fits fuel) (round c p s b) (Ends-round c v p s f b)
        (sym (scan_loop-suc c p fuel s b) ∙ e)
    where
      at :
          ((s : State) (b : S)
            → Fits c p s
            → scan_loop c p fuel s b ≡ (Scan.pending, s', b')
            → Fits c p s')
          → (r : Round E F S) → Ends c p s b (cursor s.mode) r
          → after c p fuel r ≡ (Scan.pending, s', b')
          → Fits c p s'
      at ih (Round.again s1 b1) (on, fits) e = ih s1 b1 fits e
      at ih (Round.return Scan.pending s1 b1) w e =
          subst (λ u. Fits c p u) (ap (λ (r : _ × State × S). r.1) e) (Fits-Waits c p s b f w)
      at ih (Round.return _ s1 b1) w e = absurd (cc)

-- a fit state is not reset
scan-of-Fits :
    {E F S : Type 0} (c : Setting E F S) (p : Bytes) (s : State) (b : S)
    → Fits c p s
    → scan c p s b ≡ scan_loop c p (length p + 1) s b
unfolding scan
scan-of-Fits c p s b f =
    rw (le→ltb (length p) (cursor s.mode) f.cursor_in, le→ltb (length p) s.scan f.scan_in)

-- On bounds that the parser can be made with, from a state fit for its buffer, a scan never leaves
-- its loop for want of fuel: each round moves the cursor on or returns.
pub scan_ends :
    {E F S : Type 0} (c : Setting E F S) (p : Bytes) (s : State) (b : S)
    → IsBound c.byte_max
    → Fits c p s
    → (scan c p s b).0 ≢ Scan.out_of_fuel
scan_ends c p s b v f =
    subst (λ (r : _ × State × _). r.0 ≢ Scan.out_of_fuel) (sym (scan-of-Fits c p s b f))
      (scan_loop_ends c v (length p + 1) p s b f (omega arith))

-- On bounds that the parser can be made with, from a state fit for its buffer: if a scan of the
-- bytes `p` waits for more, in a state `s'`, then a scan of `p ++ q` from `s'` reports what a scan
-- of `p ++ q` from the first state reports, and leaves the same arrays open, the same mode and the
-- same builder.
pub scan-resume :
    {E F S : Type 0} (c : Setting E F S) (p q : Bytes) (s s' : State) (b b' : S)
    → IsBound c.byte_max
    → Fits c p s
    → scan c p s b ≡ (Scan.pending, s', b')
    → outcome (scan c (p ++ q) s b) ≡ outcome (scan c (p ++ q) s' b')
unfolding Agree
scan-resume c p q s s' b b' v f e =
    let looped : scan_loop c p (length p + 1) s b ≡ (Scan.pending, s', b') =
      sym (scan-of-Fits c p s b f) ∙ e in
    let fits : Fits c p s' = scan_loop-Fits c v p q s' b' (length p + 1) s b f looped in
    ap outcome (scan-of-Fits c (p ++ q) s b (Fits-append c p q s f))
    ∙ scan_loop-resume c v p q s' b' (length p + 1) s b f looped (length (p ++ q) + 1)
        (length (p ++ q) + 1) (omega arith) (omega arith)
    ∙ sym (ap outcome (scan-of-Fits c (p ++ q) s' b' (Fits-append c p q s' fits)))
