-- ===== src/Resp/Region/Reads.antt =====
-- What a region that was checked is read as.
use cartel.Base.{
  ℕ, refl, none, some, true, false, ok, err, if◌then◌else◌, ◌≡◌, List, Bool, length, not, ◌≤◌,
  as_u32, u32_max, ◌/◌, map, ◌%◌, sym, ◌==◌, ◌∙◌, arith, ap,
}
use cartel.Resp.Node.{Key}
use cartel.Resp.Pool.{Pool}
use cartel.Resp.Pool.Ring.{contents}
use cartel.Resp.Region.{Check, Group, Region, check_region, is_bulk, region_bulks, into_bulks}
use cartel.Resp.Region.Checked.{check_region-contents, span_of_kind, spans_from-contents}
use cartel.Resp.Tape.{spans_from}
use cartel.Resp.Tape.Events.{Follows}

-- what a region of bulk strings was made of, and what it is
made_of_ok :
    (w : ℕ) (p : Pool) (r : Region) {r' : Region}
    → region_bulks w p r ≡ some (ok r')
    → (check_region is_bulk p r ≡ Check.passed)
      × (r.len % w ≡ 0)
      × (r' ≡ record r { len = as_u32 (r.len / w) })
unfolding region_bulks
made_of_ok w p r {r' = r'} e = at (r.len % w == 0) (check_region is_bulk p r) refl refl e
  where
    at :
        (whole : Bool) (c : Check)
        → (r.len % w == 0) ≡ whole
        → check_region is_bulk p r ≡ c
        → (if not whole then some (err (Group.length w r.len)) else elim c [
          | Check.passed ↦ some (ok (record r { len = as_u32 (r.len / w) }))
          | Check.failed error ↦ some (err (Group.mismatch error))
          | Check.out_of_fuel ↦ none
        ])
          ≡ some (ok r')
        → (check_region is_bulk p r ≡ Check.passed)
          × (r.len % w ≡ 0)
          × (r' ≡ record r { len = as_u32 (r.len / w) })
    at false c test same h = absurd (cc)
    at true Check.passed test same h = (same, ground (arith, test), cc)
    at true (Check.failed error) test same h = absurd (cc)
    at true Check.out_of_fuel test same h = absurd (cc)

-- In a pool with these nodes, one behind the other: if a region of them is turned into a region of bulk
-- strings of some width, then the width divides the length of the first, and the second has the first one's
-- tape and start and the number of groups as its length. Made single bulk strings again, its payloads are
-- read without checks as the span of each value, which is a bulk string, one for each of its length.
pub spans_from-region_bulks :
    (w : ℕ) (p : Pool) (r : Region) {r' : Region} (ks : List Key)
    → Follows p r.start.next ks
    → r.start.remaining ≡ length ks
    → length ks ≤ u32_max
    → region_bulks w p r ≡ some (ok r')
    → (r.len % w ≡ 0)
      × (r' ≡ record r { len = as_u32 (r.len / w) })
      × ((into_bulks r').len ≡ length ks)
      × (map some (spans_from p (into_bulks r').len (into_bulks r').start.next).0
          ≡ map span_of_kind (contents p ks))
spans_from-region_bulks w p r ks f size small e =
    let (passed, whole, made) = made_of_ok w p r e in
    (
      whole,
      made,
      ap (λ x. (into_bulks x).len) made ∙ size,
      ap (λ x. map some (spans_from p (into_bulks x).len (into_bulks x).start.next).0) made
          ∙ ap (λ n. map some (spans_from p n r.start.next).0) size
          ∙ spans_from-contents p ks r.start.next f
              (sym (check_region-contents is_bulk p r ks f size small) ∙ passed),
    )
