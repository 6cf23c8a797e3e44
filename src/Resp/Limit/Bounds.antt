-- ===== src/Resp/Limit/Bounds.antt =====
-- What the admissions of a frame grant: ends and bodies that fit in their words.
use cartel.Base.{
  Option, Option-cases, arith, as_u32, drop, get_elem?, inl, inr, length, length-drop, length-take,
  lt_of_get_elem?, max, none, ok, refl, some, u32_max, u32_size, ℕ, ◌+◌, ◌-◌, ◌<◌, ◌≡◌, ◌≤◌,
}
use cartel.Resp.Limit.Search.{position_crlf-IsInside}
use cartel.Resp.Body
use cartel.Resp.Types.{Bytes, Line}
use cartel.Resp.Limit.{
  Brand, Bound, Found, found_stop, frame_next, frame_line, frame_body, find, find_counted, find_in,
  find_text, line_at, position_break, position_crlf, text_break,
}

-- the values that `Bound::try_new` admits
pub record IsBound {k : Brand} (b : Bound k) : Type 0 where
  pub positive : 0 < b.value
  pub fits : b.value ≤ u32_max

pub start-new : (start stop : ℕ) → start < u32_size → Body.start (Body.new start stop) ≡ start
unfolding Body.start Body.new
start-new start stop h = omega arith

pub stop-new :
    (start stop : ℕ) → start < u32_size → stop < u32_size → Body.stop (Body.new start stop) ≡ stop
unfolding Body.stop Body.new
stop-new start stop h k = omega arith

module _ {b : Bound Brand.frame} (v : IsBound b) where
  -- On a bound that the parser can be made with: an admitted byte ends one behind its offset, and
  -- inside the bound.
  pub frame_next-bounds :
      (used : ℕ) {end : ℕ} → frame_next b used ≡ ok end → (end ≡ used + 1) × (end ≤ b.value)
  unfolding frame_next
  frame_next-bounds used h = ground arith

  -- On a bound that the parser can be made with: the end of an admitted line is behind its CRLF and
  -- inside the bound, and its packed body gives back its start and its stop.
  pub frame_line-bounds :
      (f : Found) {end body : ℕ}
      → frame_line b f ≡ ok (end, body)
      → (end ≡ found_stop f + 2)
        × (end ≤ b.value)
        × (Body.start body ≡ f.start)
        × (Body.stop body ≡ found_stop f)
  unfolding frame_line frame_next
  frame_line-bounds f h =
      ground
        (arith, start-new f.start (as_u32 (found_stop f)), stop-new f.start (as_u32 (found_stop f)))

  -- On a bound that the parser can be made with, from a start inside it: the packed body of an
  -- admitted bulk starts there, has the announced length, and ends with its CRLF inside the bound.
  pub frame_body-bounds :
      (start n : ℕ) {body : ℕ}
      → start ≤ b.value
      → frame_body b start n ≡ ok body
      → (Body.start body ≡ start) × (Body.stop body ≡ start + n) × (Body.stop body + 2 ≤ b.value)
  unfolding frame_body
  frame_body-bounds start n s h =
      ground (arith, start-new start (start + n), stop-new start (start + n))

line_at-bounds :
    (p : Bytes) (begin end : ℕ) {f : Found}
    → line_at p begin end ≡ some f
    → (f.start ≡ begin) × (found_stop f ≡ end)
unfolding line_at
line_at-bounds p begin end h =
    ground (arith, length-take (end - begin) (drop begin p), length-drop begin p)

find_counted-bounds :
    (p : Bytes) (begin from : ℕ) {f : Found}
    → find_counted p begin from ≡ ok (some f)
    → (f.start ≡ begin) × (found_stop f + 2 ≤ length p)
unfolding find_counted
find_counted-bounds p begin from {f} h = at (position_crlf (drop from p)) refl
  where
    at :
        (o : Option ℕ)
        → position_crlf (drop from p) ≡ o
        → (f.start ≡ begin) × (found_stop f + 2 ≤ length p)
    at none e = absurd (ground arith)
    at (some i) e = ground (
      arith,
      position_crlf-IsInside (drop from p),
      length-drop from p,
      line_at-bounds p begin (from + i) {f = f},
    )

text_break-bounds :
    (p : Bytes) (begin from i : ℕ) {f : Found}
    → text_break p begin from i ≡ ok (some f)
    → (f.start ≡ begin) × (found_stop f + 2 ≤ length p)
unfolding text_break
text_break-bounds p begin from i {f} h = elim (Option-cases (get_elem? (drop from p) (i + 1))) [
  | inl n ↦ absurd (ground arith)
  | inr (a, n) ↦
      let inside = lt_of_get_elem? (i + 1) (drop from p) n in
      ground (arith, length-drop from p, line_at-bounds p begin (from + i) {f = f})
]

find_text-bounds :
    (p : Bytes) (begin from : ℕ) {f : Found}
    → find_text p begin from ≡ ok (some f)
    → (f.start ≡ begin) × (found_stop f + 2 ≤ length p)
unfolding find_text
find_text-bounds p begin from {f} h = at (position_break (drop from p)) refl
  where
    at :
        (o : Option ℕ)
        → position_break (drop from p) ≡ o
        → (f.start ≡ begin) × (found_stop f + 2 ≤ length p)
    at none e = absurd (ground arith)
    at (some i) e = text_break-bounds p begin from i (ground arith)

-- where a line that is found starts and ends
pub find-bounds :
    (kind : Line) (p : Bytes) (start scan : ℕ) {f : Found}
    → find p start scan kind ≡ ok (some f)
    → (f.start ≡ start) × (found_stop f + 2 ≤ length p)
unfolding find find_in
find-bounds Line.status p start scan {f} h =
    ground (arith, find_text-bounds p start (max scan start) {f = f})
find-bounds Line.server p start scan {f} h =
    ground (arith, find_text-bounds p start (max scan start) {f = f})
find-bounds _ p start scan {f} h =
    ground (arith, find_counted-bounds p start (max scan start) {f = f})
