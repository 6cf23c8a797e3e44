-- ===== src/Resp/Region.antt =====
-- redis/src/protocol/parser/storage/mod.rs and tape.rs: regions, the arrays of a tape whose elements are
-- checked once and then read unchecked. A float's payload is left out, and with it what reads one.
pub mod Checked
pub mod Reads
mod Tests
use cartel.Base.{
  Bool, List, Option, Result, [], as_u32, err, false, if◌then◌else◌, none, not, ok, some, suc, true,
  zero, ℕ, ◌%◌, ◌+◌, ◌/◌, ◌==◌, ◌∷◌,
}
use cartel.Resp.Node.{Value, Key, maybe_span}
use cartel.Resp.Pool.{Pool, read}
use cartel.Resp.Tape.{
  Cursor, Batch, Read, Array, WidthError, Mismatch, Tape, batch, batch_exact, batch_finish,
  take_value,
}

-- `Region`; its kind is in the names of the functions that make and read one
pub record Region : Type 0 where
  pub tape : Tape
  pub start : Cursor
  pub len : ℕ

-- `Tape::region`
abbrev pub region : Tape → Array → Region
region t a = record {
  tape = t;
  start = record { next = a.cursor.next; remaining = a.len };
  len = a.len;
}

-- `Group`
pub data Group : Type 0 where
  length : (width actual : ℕ) → Group
  mismatch : Mismatch → Group

-- the outcome of a loop over the elements, with the model's own case for a loop out of fuel
pub data Check : Type 0 where
  passed out_of_fuel : Check
  failed : Mismatch → Check

-- the tests of the two loops
abbrev pub is_bulk : Value → Bool
is_bulk (Value.bulk span) = true
is_bulk _ = false

abbrev pub is_optional : Value → Bool
is_optional (Value.bulk span) = true
is_optional Value.nil = true
is_optional _ = false

-- the loop of `Region<Raw>::bulks` and of `Region<Raw>::optional`, on fuel
unfoldable pub check_from : (test : Value → Bool) → Pool → (fuel : ℕ) → Cursor → Check
check_from test p zero c = Check.out_of_fuel
check_from test p (suc fuel) c = elim (batch 1 c) [
  | none ↦ Check.passed
  | some b ↦ elim (take_value p b) [
    | err span ↦ Check.failed (Mismatch.server span)
    | ok found ↦ elim (test found.value) [
      | false ↦ Check.failed (Mismatch.value found.value)
      | true ↦ check_from test p fuel found.cursor
    ]
  ]
]

unfoldable pub check_region : (test : Value → Bool) → Pool → Region → Check
check_region test p r = check_from test p (r.start.remaining + 1) r.start

-- `Region<Raw>::bulks` with the width `w`, which is not zero; `none` is a loop out of fuel
unfoldable pub region_bulks : (w : ℕ) → Pool → Region → Option (Result Group Region)
region_bulks w p r =
    if not (r.len % w == 0)
    then some (err (Group.length w r.len))
    else elim (check_region is_bulk p r) [
      | Check.passed ↦ some (ok (record r { len = as_u32 (r.len / w) }))
      | Check.failed error ↦ some (err (Group.mismatch error))
      | Check.out_of_fuel ↦ none
    ]

-- `Region<Raw>::optional`
unfoldable pub region_optional : Pool → Region → Option (Result Mismatch Region)
region_optional p r = elim (check_region is_optional p r) [
  | Check.passed ↦ some (ok r)
  | Check.failed error ↦ some (err error)
  | Check.out_of_fuel ↦ none
]

-- `Region<Bulk<1>>::try_chunks` and `try_exact`; a rejection returns the region too
abbrev pub try_chunks : (n : ℕ) → Region → Result (Region × WidthError) Region
try_chunks n r =
    if not (r.len % n == 0)
    then err (r, record { width = n; actual = r.len })
    else ok (record r { len = as_u32 (r.len / n) })

abbrev pub try_exact : (n : ℕ) → Region → Result (Region × WidthError) (Tape × Batch)
try_exact n r = elim (batch_exact n r.start) [
  | ok b ↦ ok (r.tape, b)
  | err actual ↦ err (r, record { width = n; actual = actual })
]

-- `Region<Bulk<W>>::into_bulks` and `Exact::into_bulks`
abbrev pub into_bulks : Region → Region
into_bulks r = record r { len = r.start.remaining }

abbrev pub exact_into_bulks : (n : ℕ) → Tape → Batch → Region
exact_into_bulks n t b = record {
  tape = t;
  start = record { next = b.next; remaining = n };
  len = n;
}

-- `Region<Maybe>::optionals`
unfoldable pub optionals_from : Pool → (n : ℕ) → (next : Key) → List (Option ℕ) × Key
optionals_from p zero next = ([], next)
optionals_from p (suc n) next =
    let (spans, behind) = optionals_from p n (read p next).next in
    (maybe_span (read p next) ∷ spans, behind)

unfoldable pub optionals : Pool → (n : ℕ) → Batch → Read (List (Option ℕ))
unfolding optionals_from
optionals p n b = record {
  value = (optionals_from p n b.next).0;
  cursor = batch_finish b (optionals_from p n b.next).1;
}
