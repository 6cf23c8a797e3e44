-- ===== src/Pg/Pool/Ready/Tests.antt =====
-- An index of two connections over links that are lists, at work.
use cartel.Pg.Pool.Ready.Least.{IsLinks}
use cartel.Pg.Pool.{Ids, Disposition, Boundary}
use cartel.Pg.Pool.Ready.Reserves.{Succeeds}
use cartel.Pg.Pool.Ready.System.{run, Event, kept_or}
use cartel.Pg.Pool.Ready.Picks.{IsPick, run-IsPick}
use cartel.Pg.Pool.Ready.Runs.{run-Inv}
use cartel.Pg.Pool.Ready.System.{Event}
use cartel.Pg.Pool.Ready.Moves.{Status}
use cartel.Pg.Pool.Ready.System.{perform}
use cartel.Pg.Pool.Ready.Moves.{
  index_bind, try_ready, reserve_turn, settled_turn, reserve_listed, poll_ready, index_finalize,
  reindex,
}
use cartel.Pg.Pool.Ready.{insert_rank, attach, detach, remove, reprioritize, reprioritize_listed}
use cartel.Pg.Pool.Phases.{get, set_phase, is_receiving, set_access}
use cartel.Pg.Pool.Life.{bind, slot_ready}
use cartel.Pg.Pool.Turns.{reserve, current, finalize}
use cartel.Pg.Pool.Slot.{try_reply, commit}
use cartel.Pg.Pool.Sync.{try_next}
use cartel.Base.{
  ℕ, Bool, List, Option, ◌≡◌, ◌≤◌, ◌∷◌, ◌++◌, ◌==◌, ◌&&◌, ◌||◌, not, ltb, arith, if◌then◌else◌,
  refl, none, some, true, false, [], ◌<◌,
}
use cartel.Pg.Pool.Ready.{Links, Index, index_new, least}

-- the entries in the rows, the rows of the bitmap, and the ring
pub record Lists : Type 0 where
  pub members : List (ℕ × ℕ)
  pub rows : List ℕ
  pub ring : List ℕ

abbrev member : List (ℕ × ℕ) → (row index : ℕ) → Bool
member [] q j = false
member ((row, index) ∷ ms) q j = (q == row && j == index) || member ms q j

abbrev without : List (ℕ × ℕ) → (row index : ℕ) → List (ℕ × ℕ)
without [] q j = []
without ((row, index) ∷ ms) q j =
    let rest = without ms q j in if row == q && index == j then rest else (row, index) ∷ rest

abbrev is_in : List ℕ → ℕ → Bool
is_in [] q = false
is_in (row ∷ rows) q = q == row || is_in rows q

abbrev cleared : List ℕ → ℕ → List ℕ
cleared [] q = []
cleared (row ∷ rows) q = let rest = cleared rows q in if row == q then rest else row ∷ rest

abbrev no_member : List (ℕ × ℕ) → ℕ → Bool
no_member [] q = true
no_member ((row, index) ∷ ms) q = not (q == row) && no_member ms q

abbrev first_member : List (ℕ × ℕ) → ℕ → ℕ
first_member [] q = 0
first_member ((row, index) ∷ ms) q =
    let rest = first_member ms q in if q == row then index else rest

abbrev lesser : ℕ → Option ℕ → ℕ
lesser a none = a
lesser a (some b) = if ltb a b then a else b

abbrev find_row : List ℕ → ℕ → Option ℕ
find_row [] q = none
find_row (row ∷ rows) q =
    let rest = find_row rows q in if ltb row q then rest else some (lesser row rest)

abbrev first_of : List ℕ → Option ℕ
first_of [] = none
first_of (i ∷ is) = some i

abbrev list_links : Links Lists
list_links = record {
  vacant = λ capacity buckets. record { members = []; rows = []; ring = [] };
  cycle_push = λ l i. record l { ring = l.ring ++ i ∷ [] };
  cycle_unlink = λ l i. record l { ring = cleared l.ring i };
  first = λ l. first_of l.ring;
  cycle_step = λ l i. (i, record l { ring = cleared l.ring i ++ i ∷ [] });
  is_empty = λ l q. no_member l.members q;
  front = λ l q. first_member l.members q;
  is_front = λ l q i. not (no_member l.members q) && first_member l.members q == i;
  link_raw = λ l q i. record l { members = (q, i) ∷ l.members };
  unlink_raw = λ l q i. record l { members = without l.members q i };
  clamp = λ l depth. if ltb depth 4 then depth else 3;
  update = λ b l q. record l { rows = if b then q ∷ l.rows else cleared l.rows q };
  find = λ l q. find_row l.rows q;
}

member-without :
    (ms : List (ℕ × ℕ)) (row index q j : ℕ)
    → member (without ms row index) q j ≡ (member ms q j && not (q == row && j == index))
member-without [] row index q j = refl
member-without ((r, i) ∷ ms) row index q j = ground (arith, member-without ms row index q j)

is_in-update :
    (b : Bool) (rows : List ℕ) (row q : ℕ)
    → is_in (if b then row ∷ rows else cleared rows row) q ≡ (if q == row then b else is_in rows q)
is_in-update true rows row q = ground arith
is_in-update false rows row q = on rows
  where
    on : (rows : List ℕ) → is_in (cleared rows row) q ≡ (if q == row then false else is_in rows q)
    on [] = ground arith
    on (r ∷ rows) = ground (arith, on rows)

no_member_lem : (ms : List (ℕ × ℕ)) (q j : ℕ) → no_member ms q ≡ true → member ms q j ≡ false
no_member_lem [] q j h = refl
no_member_lem ((r, i) ∷ ms) q j h = ground (arith, no_member_lem ms q j, h)

first_member_lem :
    (ms : List (ℕ × ℕ)) (q : ℕ) → no_member ms q ≡ false → member ms q (first_member ms q) ≡ true
first_member_lem [] q h = absurd (cc)
first_member_lem ((r, i) ∷ ms) q h = ground (arith, first_member_lem ms q, h)

find_none_lem : (rows : List ℕ) (n p : ℕ) → n ≤ p → find_row rows n ≡ none → is_in rows p ≡ false
find_none_lem [] n p le e = refl
find_none_lem (r ∷ rows) n p le e = ground (arith, find_none_lem rows n p, e)

find_some_lem :
    (rows : List ℕ) (n q : ℕ)
    → find_row rows n ≡ some q
    → (is_in rows q ≡ true) × (n ≤ q) × ((p : ℕ) → n ≤ p → p < q → is_in rows p ≡ false)
find_some_lem [] n q e = absurd (cc)
find_some_lem (r ∷ rows) n q e = on (find_row rows n) refl (λ c. find_some_lem rows n c) e
  where
    on :
        (o : Option ℕ)
        → find_row rows n ≡ o
        → ((c : ℕ)
            → find_row rows n ≡ some c
            → (is_in rows c ≡ true) × (n ≤ c) × ((p : ℕ) → n ≤ p → p < c → is_in rows p ≡ false))
        → (if ltb r n then o else some (lesser r o)) ≡ some q
        → (is_in (r ∷ rows) q ≡ true)
          × (n ≤ q)
          × ((p : ℕ) → n ≤ p → p < q → is_in (r ∷ rows) p ≡ false)
    on none at go h = (
      ground (arith, h),
      ground (arith, h),
      λ p le lt. ground (arith, h, le, lt, find_none_lem rows n p le at),
    )
    on (some c) at go h =
        let (there, up, under) = go c at in
        (
          ground (arith, h, there, up),
          ground (arith, h, up),
          λ p le lt. ground (arith, h, le, lt, under p),
        )

list_links-IsLinks : IsLinks list_links (λ l q j. member l.members q j) (λ l q. is_in l.rows q)
list_links-IsLinks = record {
  has-vacant = λ capacity buckets q j. refl;
  bit-vacant = λ capacity buckets q. refl;
  has-link_raw = λ l row index q j. ground arith;
  has-unlink_raw = λ l row index q j. member-without l.members row index q j;
  has-update = λ b l row q j. refl;
  has-cycle_push = λ l index q j. refl;
  has-cycle_unlink = λ l index q j. refl;
  bit-link_raw = λ l row index q. refl;
  bit-unlink_raw = λ l row index q. refl;
  bit-update = λ b l row q. is_in-update b l.rows row q;
  bit-cycle_push = λ l index q. refl;
  bit-cycle_unlink = λ l index q. refl;
  empty = λ l row h j. no_member_lem l.members row j h;
  front = λ l row h. first_member_lem l.members row h;
  found = λ l from e. find_some_lem l.rows from _ e;
  not_found = λ l from e p le. find_none_lem l.rows from p le e;
}

abbrev numbers : Ids ℕ
numbers = record { index = λ k. k; equal = λ a b. a == b }

-- two connections open; a transaction takes the first and gives it back, then the second gets busy
abbrev events : List (Event ℕ ℕ ℕ)
events =
    Event.binds 0 7
    ∷ Event.opens 0
    ∷ Event.binds 1 7
    ∷ Event.opens 1
    ∷ Event.reserves 0 true
    ∷ Event.polls 0 Status.transaction 0
    ∷ Event.finalizes (record { conn = 0; generation = 1 })
    ∷ Event.polls 0 Status.idle 1
    ∷ Event.replies 1 Boundary.close
    ∷ Event.reindexes 1 2
    ∷ []

abbrev start : Index ℕ ℕ ℕ Lists
start = index_new list_links 2 4

run-Inv_example :
    Succeeds list_links
      (run list_links numbers (events ++ Event.closes 0 5 Disposition.permanent ∷ []) start)
run-Inv_example =
    run-Inv list_links numbers (events ++ Event.closes 0 5 Disposition.permanent ∷ []) 2 4

abbrev busy : Index ℕ ℕ ℕ Lists
busy = kept_or start (run list_links numbers events start)

run-IsPick_example : IsPick busy (least list_links busy)
unfolding run perform index_bind bind get set_phase is_receiving try_ready slot_ready insert_rank
    attach detach remove reserve_turn settled_turn reserve_listed reserve poll_ready current
    set_access index_finalize finalize try_reply try_next commit reindex reprioritize
    reprioritize_listed
run-IsPick_example =
    run-IsPick list_links (λ l q j. member l.members q j) (λ l q. is_in l.rows q) list_links-IsLinks
      numbers events 2 4 {x = busy} refl
