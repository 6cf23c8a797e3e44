-- ===== src/Resp/Limit/Resume.antt =====
-- `Line::find` on a buffer that grows: a search that finds nothing may resume one byte before the old
-- end.
use cartel.Base.{
  List, Option, [], ap, arith, drop, drop-append, drop-drop, get_elem?, get_elem?-drop, get_or-drop,
  length, length-append, length-drop, max, none, ok, refl, some, suc, zero, ℕ, ◌++◌, ◌+◌, ◌-◌, ◌<◌,
  ◌∙◌, ◌∷◌, ◌≡◌, ◌≢◌, ◌≤◌,
}
use native.Mathlib.Decide.{dec_lt}
use cartel.Resp.Limit.Search.{
  IsBehind, position_break-skip, position_crlf-skip, position_crlf-IsInside, shifted_by,
  position_break-append, position_break-IsBehind, position_crlf-IsBehind,
}
use cartel.Resp.Limit.{
  line_at, find_text, find_counted, position_break, position_crlf, text_break, find_in, find,
}
use cartel.Resp.Types.{Bytes, Line}

-- from one start of the search to a later one, behind bytes that hold no match
find_counted-skip :
    (b : Bytes) (begin from k : ℕ)
    → IsBehind k (position_crlf (drop from b))
    → find_counted b begin from ≡ find_counted b begin (from + k)
unfolding find_counted
find_counted-skip b begin from k h =
    ground (arith, position_crlf-skip k (drop from b) h, drop-drop k from b)

text_break-shift :
    (b : Bytes) (begin from k i : ℕ)
    → text_break b begin from (k + i) ≡ text_break b begin (from + k) i
unfolding text_break
text_break-shift b begin from k i = ground (
  arith,
  get_or-drop from (k + i) 0 b,
  get_or-drop (from + k) i 0 b,
  get_elem?-drop from (k + i + 1) b,
  get_elem?-drop (from + k) (i + 1) b,
)

find_text-skip :
    (b : Bytes) (begin from k : ℕ)
    → IsBehind k (position_break (drop from b))
    → find_text b begin from ≡ find_text b begin (from + k)
unfolding find_text
find_text-skip b begin from k h = at (position_break (drop (from + k) b)) refl
  where
    skip : position_break (drop from b) ≡ shifted_by k (position_break (drop (from + k) b))
    skip = position_break-skip k (drop from b) h ∙ rw (drop-drop k from b)

    at :
        (o : Option ℕ)
        → position_break (drop (from + k) b) ≡ o
        → find_text b begin from ≡ find_text b begin (from + k)
    at none e = ground (arith, skip)
    at (some i) e = ground (arith, skip, text_break-shift b begin from k i)

line_at-ne-none :
    (b : Bytes) (begin end : ℕ) → begin ≤ end → end ≤ length b → line_at b begin end ≢ none
unfolding line_at
line_at-ne-none b begin end h k = ground arith

-- No match before the last byte, where the search found none.
find_counted-IsBehind :
    (p q : Bytes) (begin from : ℕ)
    → begin ≤ from
    → from ≤ length p
    → find_counted p begin from ≡ ok none
    → IsBehind (length (drop from p) - 1) (position_crlf (drop from (p ++ q)))
unfolding find_counted
find_counted-IsBehind p q begin from b h e =
    rw (drop-append from p q h) (at (position_crlf (drop from p)) refl)
  where
    at :
        (o : Option ℕ)
        → position_crlf (drop from p) ≡ o
        → IsBehind (length (drop from p) - 1) (position_crlf (drop from p ++ q))
    at none n = position_crlf-IsBehind (drop from p) q n
    at (some i) n = absurd (
        line_at-ne-none p begin (from + i) (omega arith)
          (ground (arith, position_crlf-IsInside (drop from p), length-drop from p)) (ground arith))

IsBehind-le : {m n : ℕ} (o : Option ℕ) → m ≤ n → IsBehind n o → IsBehind m o
IsBehind-le none h b = tt
IsBehind-le (some i) h b = omega arith

get_elem?-ne-none {ℓ} : {A : Type ℓ} (i : ℕ) (xs : List A) → i < length xs → get_elem? xs i ≢ none
get_elem?-ne-none i [] h = absurd (omega arith)
get_elem?-ne-none zero (x ∷ xs) h = λ e. cc
get_elem?-ne-none (suc i) (x ∷ xs) h = get_elem?-ne-none i xs (omega arith)

find_text-IsBehind :
    (p q : Bytes) (begin from : ℕ)
    → begin ≤ from
    → from ≤ length p
    → find_text p begin from ≡ ok none
    → IsBehind (length (drop from p) - 1) (position_break (drop from (p ++ q)))
unfolding find_text text_break
find_text-IsBehind p q begin from b h e =
    rw (drop-append from p q h) (at (position_break (drop from p)) refl)
  where
    at :
        (o : Option ℕ)
        → position_break (drop from p) ≡ o
        → IsBehind (length (drop from p) - 1) (position_break (drop from p ++ q))
    at none n = IsBehind-le _ (omega arith) (position_break-IsBehind (drop from p) q n)
    at (some i) n =
        rw (position_break-append (drop from p) q (λ z. cc), n)
          (elim (dec_lt (i + 1) (length (drop from p))) [
            | yes lt ↦ absurd (
                line_at-ne-none p begin (from + i) (omega arith)
                  (ground (arith, length-drop from p))
                  (ground (arith, get_elem?-ne-none (i + 1) (drop from p) lt)))
            | no ge ↦ omega arith
          ])

-- where a waiting line resumes: one byte before the old end, and not before its own start
abbrev pub resume_at : Bytes → ℕ → ℕ
resume_at p start = max (length p - 1) start

-- From a mark that is not behind the last byte: if `Line::find` finds nothing yet, then the search on
-- more bytes may resume one byte before the old end, and returns the same.
pub find-resume :
    (kind : Line) (p q : Bytes) (start scan : ℕ)
    → start ≤ length p
    → scan ≤ resume_at p start
    → find p start scan kind ≡ ok none
    → find (p ++ q) start scan kind ≡ find (p ++ q) start (resume_at p start) kind
unfolding find find_in
find-resume kind p q start scan hs hc e = at kind e
  where
    from : ℕ
    from = max scan start

    k : ℕ
    k = max (resume_at p start) start - from

    le : from ≤ length p
    le = omega arith

    lands : from + k ≡ max (resume_at p start) start
    lands = omega arith

    short : k ≤ length (drop from p) - 1
    short = omega (arith, length-drop from p)

    text :
        find_text p start from ≡ ok none
        → find_text (p ++ q) start from ≡ find_text (p ++ q) start (max (resume_at p start) start)
    text e =
        find_text-skip (p ++ q) start from k
          (IsBehind-le _ short (find_text-IsBehind p q start from (omega arith) le e))
        ∙ ap (find_text (p ++ q) start) lands

    counted :
        find_counted p start from ≡ ok none
        → find_counted (p ++ q) start from
          ≡ find_counted (p ++ q) start (max (resume_at p start) start)
    counted e =
        find_counted-skip (p ++ q) start from k
          (IsBehind-le _ short (find_counted-IsBehind p q start from (omega arith) le e))
        ∙ ap (find_counted (p ++ q) start) lands

    at :
        (kind : Line)
        → find p start scan kind ≡ ok none
        → find (p ++ q) start scan kind ≡ find (p ++ q) start (resume_at p start) kind
    at Line.status e = ground (arith, length-append p q, text, le)
    at Line.server e = ground (arith, length-append p q, text, le)
    at _ e = ground (arith, length-append p q, counted, le)
