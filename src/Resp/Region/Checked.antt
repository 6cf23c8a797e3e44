-- ===== src/Resp/Region/Checked.antt =====
-- What the checks of a region promise of the reads behind them.
use cartel.Resp.Body
use cartel.Resp.Tape.Events.{batch-some, Follows, batch-none}
use cartel.Resp.Pool.Ring.{contents}
use cartel.Base.{
  Bool, List, Option, Result, [], arith, err, if◌then◌else◌, none, ok, one_plus_u32, some, sub_u32,
  suc, u32_max, ℕ, ◌-◌, ◌∷◌, ◌≡◌, ◌≤◌, length, ◌<◌, ap, ◌∙◌, ◌+◌, map, zero, refl,
}
use cartel.Resp.Pool.{node, Pool}
use cartel.Resp.Node.{Kind, Value, Node, kind, try_value, Key}
use cartel.Resp.Tape.{Mismatch, take_value, children, spans_from}
use cartel.Resp.Region.{Check, check_from, check_region, Region, is_bulk}

-- the value of a kind; a server error is its span
pub value_of_kind : Kind → Result ℕ Value
value_of_kind Kind.nil = ok Value.nil
value_of_kind Kind.ok_reply = ok Value.ok_reply
value_of_kind (Kind.status span) = ok (Value.status span)
value_of_kind (Kind.error span) = err span
value_of_kind (Kind.bulk span) = ok (Value.bulk span)
value_of_kind (Kind.integer z) = ok (Value.integer z)
value_of_kind (Kind.array n) = ok (Value.array n)

-- one value, and what the others give
abbrev check_one : (test : Value → Bool) → Result ℕ Value → Check → Check
check_one test (err span) rest = Check.failed (Mismatch.server span)
check_one test (ok v) rest = if test v then rest else Check.failed (Mismatch.value v)

-- the check of a list of values, up to the first that fails
pub check_kinds : (test : Value → Bool) → List Kind → Check
check_kinds test [] = Check.passed
check_kinds test (k ∷ ks) = check_one test (value_of_kind k) (check_kinds test ks)

-- the span of a bulk, and of nothing else
pub span_of_kind : Kind → Option ℕ
span_of_kind (Kind.bulk span) = some span
span_of_kind _ = none

try_value-eq-value_of_kind : (n : Node) → try_value n ≡ value_of_kind (kind n)
unfolding try_value kind value_of_kind
try_value-eq-value_of_kind n = ground arith

take_value-children :
    (p : Pool) (next : Key) (n : ℕ)
    → suc n ≤ u32_max
    → take_value p (children 1 (record { next = next; remaining = suc n }))
      ≡ elim (value_of_kind (kind (node p next))) [
        | err span ↦ err span
        | ok v ↦
            ok (record { value = v; cursor = record { next = (node p next).next; remaining = n } })
      ]
unfolding take_value
take_value-children p next n small =
    let size : one_plus_u32 (sub_u32 (suc n) 1) - 1 ≡ n = omega arith in
    let same = try_value-eq-value_of_kind (node p next) in ground (arith, same, size)

-- one element of the loop
check_from-step :
    (test : Value → Bool) (p : Pool) (fuel : ℕ) (next : Key) (n : ℕ)
    → suc n ≤ u32_max
    → check_from test p (suc fuel) (record { next = next; remaining = suc n })
      ≡ check_one test
          (value_of_kind (kind (node p next)))
          (check_from test p fuel (record { next = (node p next).next; remaining = n }))
unfolding check_from
check_from-step test p fuel next n small =
    let one = batch-some 1 (record { next = next; remaining = suc n }) (omega arith) in
    let same = take_value-children p next n small in ground (arith, one, same)

check_from-none :
    (test : Value → Bool) (p : Pool) (fuel : ℕ) (next : Key)
    → check_from test p (suc fuel) (record { next = next; remaining = 0 }) ≡ Check.passed
unfolding check_from
check_from-none test p fuel next = rw (batch-none next, check_from)

check_from-contents :
    (test : Value → Bool) (p : Pool) (fuel : ℕ) (ks : List Key) (next : Key)
    → Follows p next ks
    → length ks < fuel
    → length ks ≤ u32_max
    → check_from test p fuel (record { next = next; remaining = length ks })
      ≡ check_kinds test (contents p ks)
unfolding Follows check_kinds contents
check_from-contents test p zero ks next f lt small = absurd (omega arith)
check_from-contents test p (suc fuel) [] next f lt small = check_from-none test p fuel next
check_from-contents test p (suc fuel) (k ∷ ks) next f lt small =
    let ih =
      check_from-contents test p fuel ks (node p next).next f.1 (omega arith) (omega arith) in
    check_from-step test p fuel next (length ks) small
    ∙ ap (check_one test (value_of_kind (kind (node p next)))) ih
    ∙ ap (λ n. check_one test (value_of_kind (kind (node p n))) (check_kinds test (contents p ks)))
        f.0

-- In a pool with these nodes, one behind the other: the check of a region of them gives what the check of
-- the list of their values gives, which passes them all or fails at the first without the kind asked for.
pub check_region-contents :
    (test : Value → Bool) (p : Pool) (r : Region) (ks : List Key)
    → Follows p r.start.next ks
    → r.start.remaining ≡ length ks
    → length ks ≤ u32_max
    → check_region test p r ≡ check_kinds test (contents p ks)
unfolding check_region
check_region-contents test p r ks f size small =
    ap (λ n. check_from test p (n + 1) (record { next = r.start.next; remaining = n })) size
    ∙ check_from-contents test p (length ks + 1) ks r.start.next f (omega arith) small

payload_of_bulk :
    (n : Node) {span : ℕ} → kind n ≡ Kind.bulk span → Body.from_stored n.payload ≡ span
unfolding kind
payload_of_bulk n e = ground arith

-- what the unchecked read of bulk strings gives
pub spans_from-contents :
    (p : Pool) (ks : List Key) (next : Key)
    → Follows p next ks
    → check_kinds is_bulk (contents p ks) ≡ Check.passed
    → map some (spans_from p (length ks) next).0 ≡ map span_of_kind (contents p ks)
unfolding Follows check_kinds contents spans_from value_of_kind span_of_kind
spans_from-contents p [] next f passed = refl
spans_from-contents p (k ∷ ks) next f passed =
    at (kind (node p k)) refl passed (spans_from-contents p ks (node p next).next f.1)
  where
    at :
        (w : Kind)
        → kind (node p k) ≡ w
        → check_one is_bulk (value_of_kind w) (check_kinds is_bulk (contents p ks)) ≡ Check.passed
        → (check_kinds is_bulk (contents p ks) ≡ Check.passed
            → map some (spans_from p (length ks) (node p next).next).0
              ≡ map span_of_kind (contents p ks))
        → map some (spans_from p (length (k ∷ ks)) next).0 ≡ map span_of_kind (contents p (k ∷ ks))
    at (Kind.bulk span) e passed ih =
        let read_span : Body.from_stored (node p next).payload ≡ span =
          ap (λ n. Body.from_stored (node p n).payload) f.0 ∙ payload_of_bulk (node p k) e in
        rw e (cc (read_span, ih passed))
    at Kind.nil e passed ih = absurd (cc)
    at Kind.ok_reply e passed ih = absurd (cc)
    at (Kind.status span) e passed ih = absurd (cc)
    at (Kind.error span) e passed ih = absurd (cc)
    at (Kind.integer z) e passed ih = absurd (cc)
    at (Kind.array n) e passed ih = absurd (cc)
