-- ===== src/Resp/Pool/Ring.antt =====
-- Rings of nodes: the paths that `next` takes.
use cartel.Base.{
  Bool-cases, List, Option, [], ap, arith, if◌then◌else◌, inl, inr, refl, sym, ℕ, ◌++◌, ◌+◌, ◌==◌,
  ◌∙◌, ◌∷◌, ◌≡◌, ◌≢◌,
}
use cartel.Resp.Node.{Kind, kind, Key, Node, key_offset, with_next}
use cartel.Resp.Pool.{Pool, node, set_node}

-- from `a` through `ks` to `z`; the ring with tail `t` and the keys `ks` before it is
-- `Route p t ks t`
unfoldable pub Route : Pool → Key → List Key → Key → Type 0
Route p a [] z = (node p a).next ≡ z
Route p a (k ∷ ks) z = ((node p a).next ≡ k) × Route p k ks z

-- how many keys of `ks` have the offset `o`
unfoldable pub tally : ℕ → List Key → ℕ
tally o [] = 0
tally o (k ∷ ks) = (if key_offset k == o then 1 else 0) + tally o ks

pub tally-append : (o : ℕ) (xs ys : List Key) → tally o (xs ++ ys) ≡ tally o xs + tally o ys
unfolding tally
tally-append o [] ys = omega arith
tally-append o (x ∷ xs) ys = omega (arith, tally-append o xs ys)

pub tally_self : (k : Key) → tally (key_offset k) (k ∷ []) ≡ 1
unfolding tally
tally_self k = ground arith

-- two keys at the same offset count twice
pub other_of_tally :
    (k x : Key) (xs : List Key) → tally (key_offset k) (x ∷ xs) ≡ 0 → key_offset x ≢ key_offset k
unfolding tally
other_of_tally k x xs h e = ground arith

pub node-set_node : (p : Pool) (k : Key) (n : Node) → node (set_node p k n) k ≡ n
node-set_node p k n = ground arith

pub node-set_node-other :
    (p : Pool) (k x : Key) (n : Node)
    → key_offset x ≢ key_offset k
    → node (set_node p k n) x ≡ node p x
node-set_node-other p k x n h = ground arith

-- two pools whose nodes at `ks` have the same `next`
unfoldable pub SameNext : (p p' : Pool) → List Key → Type 0
SameNext p p' [] = Unit
SameNext p p' (k ∷ ks) = ((node p' k).next ≡ (node p k).next) × SameNext p p' ks

pub Route-move :
    (p p' : Pool) (a a' : Key) (ks : List Key) (z : Key)
    → (node p' a').next ≡ (node p a).next
    → SameNext p p' ks
    → Route p a ks z
    → Route p' a' ks z
unfolding Route SameNext
Route-move p p' a a' [] z e same r = e ∙ r
Route-move p p' a a' (k ∷ ks) z e same r = (e ∙ r.0, Route-move p p' k k ks z same.0 same.1 r.1)

pub Route-append :
    (p : Pool) (a b z : Key) (xs ys : List Key)
    → Route p a xs b
    → Route p b ys z
    → Route p a (xs ++ b ∷ ys) z
unfolding Route
Route-append p a b z [] ys r s = (r, s)
Route-append p a b z (x ∷ xs) ys r s = (r.0, Route-append p x b z xs ys r.1 s)

pub SameNext-refl : (p : Pool) (ks : List Key) → SameNext p p ks
unfolding SameNext
SameNext-refl p [] = tt
SameNext-refl p (k ∷ ks) = (refl, SameNext-refl p ks)

-- a `set` off the keys `ks`
pub SameNext-set_node :
    (p p' : Pool) (k : Key) (n : Node) (ks : List Key)
    → tally (key_offset k) ks ≡ 0
    → SameNext p p' ks
    → SameNext p (set_node p' k n) ks
unfolding SameNext tally
SameNext-set_node p p' k n [] off same = tt
SameNext-set_node p p' k n (x ∷ ks) off same = (
  ap (λ (m : Node). m.next) (node-set_node-other p' k x n (other_of_tally k x ks off)) ∙ same.0,
  SameNext-set_node p p' k n ks (omega arith) same.1,
)

-- the values of some nodes, in their order
unfoldable pub contents : Pool → List Key → List Kind
contents p [] = []
contents p (k ∷ ks) = kind (node p k) ∷ contents p ks

pub contents-append :
    (p : Pool) (xs ys : List Key) → contents p (xs ++ ys) ≡ contents p xs ++ contents p ys
unfolding contents
contents-append p [] ys = refl
contents-append p (x ∷ xs) ys = ap (λ ks. kind (node p x) ∷ ks) (contents-append p xs ys)

pub contents-set_node :
    (p : Pool) (k : Key) (n : Node) (ks : List Key)
    → tally (key_offset k) ks ≡ 0
    → contents (set_node p k n) ks ≡ contents p ks
unfolding contents tally
contents-set_node p k n [] off = refl
contents-set_node p k n (x ∷ ks) off =
    ap (λ (m : Node). kind m ∷ contents (set_node p k n) ks)
      (node-set_node-other p k x n (other_of_tally k x ks off))
    ∙ ap (λ ks'. kind (node p x) ∷ ks') (contents-set_node p k n ks (omega arith))

-- `with_next` and `with_free` keep every value
pub kind-with_next :
    (p : Pool) (k x y : Key)
    → kind (node (set_node p k (with_next (node p k) y)) x) ≡ kind (node p x)
unfolding kind
kind-with_next p k x y = elim (Bool-cases (key_offset x == key_offset k)) [
  | inl same ↦
      let e : key_offset x ≡ key_offset k = ground arith in
      rw same (ap (λ o. kind (p.nodes o)) (sym e))
  | inr other ↦ rw other
]

pub contents-with_next :
    (p : Pool) (k y : Key) (ks : List Key)
    → contents (set_node p k (with_next (node p k) y)) ks ≡ contents p ks
unfolding contents
contents-with_next p k y [] = refl
contents-with_next p k y (x ∷ ks) = cc (kind-with_next p k x y, contents-with_next p k y ks)

-- rings and values do not depend on the mark of the free ring
pub Route-free :
    (p : Pool) (o : Option Key) (a : Key) (ks : List Key) (z : Key)
    → Route p a ks z
    → Route (record p { free = o }) a ks z
unfolding Route
Route-free p o a [] z r = r
Route-free p o a (k ∷ ks) z r = (r.0, Route-free p o k ks z r.1)

pub contents-free :
    (p : Pool) (o : Option Key) (ks : List Key)
    → contents (record p { free = o }) ks ≡ contents p ks
unfolding contents
contents-free p o [] = refl
contents-free p o (k ∷ ks) = ap (λ rest. kind (node p k) ∷ rest) (contents-free p o ks)

pub SameNext-free :
    (p p' : Pool) (o : Option Key) (ks : List Key)
    → SameNext p p' ks
    → SameNext p (record p' { free = o }) ks
unfolding SameNext
SameNext-free p p' o [] same = tt
SameNext-free p p' o (k ∷ ks) same = (same.0, SameNext-free p p' o ks same.1)

pub SameNext-split :
    (p p' : Pool) (xs ys : List Key)
    → SameNext p p' (xs ++ ys)
    → SameNext p p' xs × SameNext p p' ys
unfolding SameNext
SameNext-split p p' [] ys same = (tt, same)
SameNext-split p p' (x ∷ xs) ys same =
    let (left, right) = SameNext-split p p' xs ys same.1 in ((same.0, left), right)

pub SameNext-trans :
    (p q r : Pool) (ks : List Key) → SameNext p q ks → SameNext q r ks → SameNext p r ks
unfolding SameNext
SameNext-trans p q r [] a b = tt
SameNext-trans p q r (k ∷ ks) a b = (b.0 ∙ a.0, SameNext-trans p q r ks a.1 b.1)
