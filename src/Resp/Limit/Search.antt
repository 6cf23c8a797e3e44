-- ===== src/Resp/Limit/Search.antt =====
-- The two searches of `Line::find`: stable under more input, and resumable behind bytes that hold
-- no match.
use cartel.Base.{
  Option, [], ap, arith, drop, length, none, refl, some, suc, sym, zero, ℕ, ◌++◌, ◌+◌, ◌-◌, ◌∷◌,
  ◌≡◌, ◌≢◌, ◌≤◌,
}
use cartel.Resp.Limit.{shifted, position_break, position_crlf}
use cartel.Resp.Types.{Bytes}

-- a position `k` further on
abbrev pub shifted_by : ℕ → Option ℕ → Option ℕ
shifted_by k none = none
shifted_by k (some i) = some (k + i)

-- every match lies `n` positions before the end
abbrev pub IsInside : ℕ → ℕ → Option ℕ → Type 0
IsInside n size none = Unit
IsInside n size (some i) = i + n ≤ size

-- no match in the first `k` positions
abbrev pub IsBehind : ℕ → Option ℕ → Type 0
IsBehind k none = Unit
IsBehind k (some i) = k ≤ i

shifted_by-zero : (o : Option ℕ) → shifted_by 0 o ≡ o
shifted_by-zero none = refl
shifted_by-zero (some i) = ap some (omega arith)

shifted_by-suc : (k : ℕ) (o : Option ℕ) → shifted_by (suc k) o ≡ shifted (shifted_by k o)
shifted_by-suc k none = refl
shifted_by-suc k (some i) = ap some (omega arith)

IsBehind-shifted : (k : ℕ) (o : Option ℕ) → IsBehind (suc k) (shifted o) → IsBehind k o
IsBehind-shifted k none h = tt
IsBehind-shifted k (some i) h = omega arith

pub position_break-IsInside : (xs : Bytes) → IsInside 1 (length xs) (position_break xs)
unfolding position_break
position_break-IsInside [] = tt
position_break-IsInside (x ∷ xs) = ground (arith, position_break-IsInside xs)

pub position_break-append :
    (xs ys : Bytes) → position_break xs ≢ none → position_break (xs ++ ys) ≡ position_break xs
unfolding position_break
position_break-append [] ys h = absurd (h refl)
position_break-append (x ∷ xs) ys h = ground (arith, position_break-append xs ys)

pub position_break-skip :
    (k : ℕ) (xs : Bytes)
    → IsBehind k (position_break xs)
    → position_break xs ≡ shifted_by k (position_break (drop k xs))
unfolding position_break
position_break-skip zero xs h = sym (shifted_by-zero _)
position_break-skip (suc k) [] h = refl
position_break-skip (suc k) (x ∷ xs) h = ground (arith, position_break-skip k xs)

pub position_crlf-IsInside : (xs : Bytes) → IsInside 2 (length xs) (position_crlf xs)
unfolding position_crlf
position_crlf-IsInside [] = tt
position_crlf-IsInside (x ∷ []) = ground arith
position_crlf-IsInside (x ∷ y ∷ xs) = ground (arith, position_crlf-IsInside (y ∷ xs))

pub position_crlf-append :
    (xs ys : Bytes) → position_crlf xs ≢ none → position_crlf (xs ++ ys) ≡ position_crlf xs
unfolding position_crlf
position_crlf-append [] ys h = absurd (h refl)
position_crlf-append (x ∷ []) ys h = absurd (h (ground arith))
position_crlf-append (x ∷ y ∷ xs) ys h = ground (arith, position_crlf-append (y ∷ xs) ys)

pub position_crlf-skip :
    (k : ℕ) (xs : Bytes)
    → IsBehind k (position_crlf xs)
    → position_crlf xs ≡ shifted_by k (position_crlf (drop k xs))
unfolding position_crlf
position_crlf-skip zero xs h = sym (shifted_by-zero _)
position_crlf-skip (suc k) [] h = refl
position_crlf-skip (suc k) (x ∷ xs) h = ground (arith, position_crlf-skip k xs)

-- Bytes with no match keep all but their last position free of one, whatever follows.
pub position_break-IsBehind :
    (xs ys : Bytes) → position_break xs ≡ none → IsBehind (length xs) (position_break (xs ++ ys))
unfolding position_break
position_break-IsBehind [] ys h = ground arith
position_break-IsBehind (x ∷ xs) ys h = ground (arith, position_break-IsBehind xs ys)

pub position_crlf-IsBehind :
    (xs ys : Bytes) → position_crlf xs ≡ none → IsBehind (length xs - 1) (position_crlf (xs ++ ys))
unfolding position_crlf
position_crlf-IsBehind [] ys h = ground arith
position_crlf-IsBehind (x ∷ []) ys h = ground arith
position_crlf-IsBehind (x ∷ y ∷ xs) ys h = ground (arith, position_crlf-IsBehind (y ∷ xs) ys)
