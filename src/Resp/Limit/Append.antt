-- ===== src/Resp/Limit/Append.antt =====
-- `Line::find` on a buffer that grows: what it finds stays found.
use cartel.Base.{
  Bool-cases, Option, Option-cases, arith, drop, drop-append, get_elem?, get_elem?-append,
  get_or-append, inl, inr, leb, leb→le, length, length-append, length-drop, lt_of_get_elem?, ltb,
  max, none, ok, refl, some, take-append, ℕ, ◌++◌, ◌+◌, ◌-◌, ◌<◌, ◌≡◌, ◌≤◌,
}
use cartel.Resp.Limit.Search.{
  position_crlf-IsInside, position_crlf-append, position_break-IsInside, position_break-append,
}
use cartel.Resp.Limit.{
  line_at, find_text, find_counted, position_break, position_crlf, Found, text_break, find_in, find,
}
use cartel.Resp.Types.{Bytes, Line}

line_at-append :
    (p q : Bytes) (begin end : ℕ)
    → end ≤ length p
    → line_at (p ++ q) begin end ≡ line_at p begin end
unfolding line_at
line_at-append p q begin end h = elim (Bool-cases (leb begin end)) [
  | inl le ↦ ground (
    arith,
    length-append p q,
    length-drop begin p,
    drop-append begin p q (omega (arith, leb→le begin end le)),
    take-append (end - begin) (drop begin p) q
        (omega (arith, length-drop begin p, leb→le begin end le)),
  )
  | inr gt ↦ rw gt
]

-- a line that is found stays found
find_counted-append :
    (p q : Bytes) (begin from : ℕ) {f : Found}
    → from ≤ length p
    → find_counted p begin from ≡ ok (some f)
    → find_counted (p ++ q) begin from ≡ ok (some f)
unfolding find_counted
find_counted-append p q begin from {f} h e = at (position_crlf (drop from p)) refl
  where
    at :
        (o : Option ℕ)
        → position_crlf (drop from p) ≡ o
        → find_counted (p ++ q) begin from ≡ ok (some f)
    at none n = ground arith
    at (some i) n = ground (
      arith,
      drop-append from p q h,
      position_crlf-append (drop from p) q (λ z. cc),
      line_at-append p q begin (from + i),
      position_crlf-IsInside (drop from p),
      length-drop from p,
    )

text_break-append :
    (p q : Bytes) (begin from i : ℕ) {f : Found}
    → from ≤ length p
    → i < length (drop from p)
    → text_break p begin from i ≡ ok (some f)
    → text_break (p ++ q) begin from i ≡ ok (some f)
unfolding text_break
text_break-append p q begin from i h lt e = elim (Option-cases (get_elem? (drop from p) (i + 1))) [
  | inl n ↦ ground arith
  | inr (a, n) ↦
      let inside = lt_of_get_elem? (i + 1) (drop from p) n in
      ground (
        arith,
        drop-append from p q h,
        get_or-append i 0 (drop from p) q lt,
        get_elem?-append (i + 1) (drop from p) q inside,
        line_at-append p q begin (from + i),
        length-drop from p,
      )
]

find_text-append :
    (p q : Bytes) (begin from : ℕ) {f : Found}
    → from ≤ length p
    → find_text p begin from ≡ ok (some f)
    → find_text (p ++ q) begin from ≡ ok (some f)
unfolding find_text
find_text-append p q begin from {f} h e = at (position_break (drop from p)) refl
  where
    at :
        (o : Option ℕ)
        → position_break (drop from p) ≡ o
        → find_text (p ++ q) begin from ≡ ok (some f)
    at none n = ground arith
    at (some i) n = ground (
      arith,
      drop-append from p q h,
      position_break-append (drop from p) q (λ z. cc),
      position_break-IsInside (drop from p),
      text_break-append p q begin from i {f = f} h,
    )

-- a line that is found is found again
pub find-append :
    (kind : Line) (p q : Bytes) (start scan : ℕ) {f : Found}
    → find p start scan kind ≡ ok (some f)
    → find (p ++ q) start scan kind ≡ ok (some f)
unfolding find find_in
find-append kind p q start scan {f} e = elim (Bool-cases (ltb (length p) (max scan start))) [
  | inl past ↦ ground arith
  | inr within ↦ inside kind (ground arith) e
]
  where
    inside :
        (kind : Line)
        → max scan start ≤ length p
        → find p start scan kind ≡ ok (some f)
        → find (p ++ q) start scan kind ≡ ok (some f)
    inside Line.status h e =
        ground (arith, length-append p q, find_text-append p q start (max scan start) {f = f} h)
    inside Line.server h e =
        ground (arith, length-append p q, find_text-append p q start (max scan start) {f = f} h)
    inside _ h e =
        ground (arith, length-append p q, find_counted-append p q start (max scan start) {f = f} h)
