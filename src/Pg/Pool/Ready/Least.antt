-- ===== src/Pg/Pool/Ready/Least.antt =====
-- The minimum of the index: the least row with a connection in it.
use cartel.Base.{
  ℕ, Bool, Option, Bool-cases, ◌≡◌, ◌≤◌, ◌<◌, ◌==◌, ◌&&◌, ◌||◌, not, if◌then◌else◌, sym, ◌∙◌, none,
  some, true, false, inl, inr, refl, arith, ◌+◌, ltb,
}
use cartel.Pg.Pool.Ready.{Index, Links, is_row, below}
use cartel.Pg.Pool.Ready.Stored.{priority_of}

-- what the index relies on: which entries the list of a row holds, and which rows the bitmap has
pub record IsLinks {L : Type 0} (hooks : Links L) (has : L → (row index : ℕ) → Bool)
    (bit : L → (row : ℕ) → Bool) : Type 0 where
  pub has-vacant : (capacity buckets q j : ℕ) → has (hooks.vacant capacity buckets) q j ≡ false
  pub bit-vacant : (capacity buckets q : ℕ) → bit (hooks.vacant capacity buckets) q ≡ false
  pub has-link_raw :
      (l : L) (row index q j : ℕ)
      → has (hooks.link_raw l row index) q j ≡ (has l q j || (q == row && j == index))
  pub has-unlink_raw :
      (l : L) (row index q j : ℕ)
      → has (hooks.unlink_raw l row index) q j ≡ (has l q j && not (q == row && j == index))
  pub has-update : (b : Bool) (l : L) (row q j : ℕ) → has (hooks.update b l row) q j ≡ has l q j
  pub has-cycle_push : (l : L) (index q j : ℕ) → has (hooks.cycle_push l index) q j ≡ has l q j
  pub has-cycle_unlink : (l : L) (index q j : ℕ) → has (hooks.cycle_unlink l index) q j ≡ has l q j
  pub bit-link_raw : (l : L) (row index q : ℕ) → bit (hooks.link_raw l row index) q ≡ bit l q
  pub bit-unlink_raw : (l : L) (row index q : ℕ) → bit (hooks.unlink_raw l row index) q ≡ bit l q
  pub bit-update :
      (b : Bool) (l : L) (row q : ℕ)
      → bit (hooks.update b l row) q ≡ (if q == row then b else bit l q)
  pub bit-cycle_push : (l : L) (index q : ℕ) → bit (hooks.cycle_push l index) q ≡ bit l q
  pub bit-cycle_unlink : (l : L) (index q : ℕ) → bit (hooks.cycle_unlink l index) q ≡ bit l q
  pub empty : (l : L) (row : ℕ) → hooks.is_empty l row ≡ true → (j : ℕ) → has l row j ≡ false
  pub front :
      (l : L) (row : ℕ) → hooks.is_empty l row ≡ false → has l row (hooks.front l row) ≡ true
  pub found :
      (l : L) (from : ℕ) {q : ℕ}
      → hooks.find l from ≡ some q
      → (bit l q ≡ true) × (from ≤ q) × ((p : ℕ) → from ≤ p → p < q → bit l p ≡ false)
  pub not_found :
      (l : L) (from : ℕ) → hooks.find l from ≡ none → (p : ℕ) → from ≤ p → bit l p ≡ false

-- the least number with a bit
abbrev pub IsLeast : (ℕ → Bool) → Option ℕ → Type 0
IsLeast bit none = (q : ℕ) → bit q ≡ false
IsLeast bit (some m) = (bit m ≡ true) × ((q : ℕ) → q < m → bit q ≡ false)

-- bits that are the same have the same least one
pub same-IsLeast :
    (b b' : ℕ → Bool) (m : Option ℕ) → ((q : ℕ) → b' q ≡ b q) → IsLeast b m → IsLeast b' m
same-IsLeast b b' none h least = λ q. h q ∙ least q
same-IsLeast b b' (some m) h (at, under) = (h m ∙ at, λ q lt. h q ∙ under q lt)

-- a bit that is set
pub set-IsLeast :
    (b b' : ℕ → Bool) (row : ℕ) (m : Option ℕ)
    → ((q : ℕ) → b' q ≡ (if q == row then true else b q))
    → IsLeast b m
    → IsLeast b' (if below row m then some row else m)
set-IsLeast b b' row none h least = (ground (arith, h row), λ q lt. ground (arith, h q, least q))
set-IsLeast b b' row (some m) h (at, under) = on (ltb row m) refl
  where
    on : (c : Bool) → ltb row m ≡ c → IsLeast b' (if c then some row else some m)
    on true lt = (ground (arith, h row), λ q q_lt. ground (arith, h q, under q))
    on false lt = (ground (arith, h m, at), λ q q_lt. ground (arith, h q, under q))

-- a bit that is cleared; the next one is looked up if it was the least
pub cleared-IsLeast :
    (b b' : ℕ → Bool) (row : ℕ) (m next : Option ℕ)
    → ((q : ℕ) → b' q ≡ (if q == row then false else b q))
    → (next ≡ none → (q : ℕ) → row + 1 ≤ q → b' q ≡ false)
    → ((n : ℕ) → next ≡ some n → (b' n ≡ true) × ((q : ℕ) → row + 1 ≤ q → q < n → b' q ≡ false))
    → IsLeast b m
    → IsLeast b' (if is_row m row then next else m)
cleared-IsLeast b b' row none next h missing found least = λ q. ground (arith, h q, least q)
cleared-IsLeast b b' row (some m) next h missing found (at, under) = on (m == row) refl next refl
  where
    on :
        (c : Bool)
        → (m == row) ≡ c
        → (o : Option ℕ) → next ≡ o
        → IsLeast b' (if c then o else some m)
    on true same none e = λ q. ground (arith, h q, under q, missing e q)
    on true same (some n) e =
        let (there, between) = found n e in (there, λ q lt. ground (arith, h q, under q, between q))
    on false same o e = (ground (arith, h m, at), λ q lt. ground (arith, h q, under q))

module _ {L : Type 0} (hooks : Links L) (has : L → (row index : ℕ) → Bool)
    (bit : L → (row : ℕ) → Bool) where
  -- the lists hold the entries with their priorities, the bitmap the rows with an entry, and the minimum is
  -- the least of these
  pub record IsRanked {K T F : Type 0} (x : Index K T F L) : Type 0 where
    pub placed : (q i : ℕ) → has x.links q i ≡ is_row (priority_of x i) q
    pub marked : (q : ℕ) → bit x.links q ≡ not (hooks.is_empty x.links q)
    pub least : IsLeast (bit x.links) x.minimum

  module _ (law : IsLinks hooks has bit) where
    -- a list with an entry in it is not empty, and one with none is
    pub occupied : (l : L) (q j : ℕ) → has l q j ≡ true → hooks.is_empty l q ≡ false
    occupied l q j h = elim (Bool-cases (hooks.is_empty l q)) [
      | inl e ↦ absurd (cc (law.empty l q e j))
      | inr e ↦ e
    ]

    pub emptied : (l : L) (q : ℕ) → ((j : ℕ) → has l q j ≡ false) → hooks.is_empty l q ≡ true
    emptied l q h = elim (Bool-cases (hooks.is_empty l q)) [
      | inl e ↦ e
      | inr e ↦ absurd (cc (law.front l q e, h (hooks.front l q)))
    ]

    -- lists that hold the same are empty together
    pub same_empty :
        (l l' : L) (q : ℕ)
        → ((j : ℕ) → has l' q j ≡ has l q j)
        → hooks.is_empty l' q ≡ hooks.is_empty l q
    same_empty l l' q h = elim (Bool-cases (hooks.is_empty l q)) [
      | inl e ↦ emptied l' q (λ j. h j ∙ law.empty l q e j) ∙ sym e
      | inr e ↦ occupied l' q (hooks.front l q) (h (hooks.front l q) ∙ law.front l q e) ∙ sym e
    ]
