-- ===== src/Resp/Region/Tests.antt =====
-- Tapes and regions in a pool of two nodes.
use cartel.Base.{
  refl, none, some, ok, [], arith, if◌then◌else◌, ◌==◌, ◌∷◌, ◌≡◌, map, ◌%◌, as_u32, ◌/◌,
}
use cartel.Resp.Node.{Tag, key_offset, try_value}
use cartel.Resp.Pool.{Pool}
use cartel.Resp.Pool.Ring.{Route, contents}
use cartel.Resp.Region.{
  Region, check_region, check_from, is_bulk, region_bulks, batch, take_value, into_bulks,
}
use cartel.Resp.Region.Checked.{check_kinds, check_region-contents, span_of_kind}
use cartel.Resp.Region.Reads.{spans_from-region_bulks}
use cartel.Resp.Tape.{batch, take_value, Tape, spans_from, tape_cursor}
use cartel.Resp.Tape.Events.{Follows, events, tape_events}

-- a ring of two bulk strings, with the tail 2
abbrev two_bulks : Pool
two_bulks = record {
  nodes = λ i. record { next = if i == 0 then 2 else 1; tag = Tag.bulk; payload = i };
  free = none;
}

abbrev two_tape : Tape
two_tape = record { tail = 2; len = 2 }

abbrev two_region : Region
two_region = record { tape = two_tape; start = record { next = 1; remaining = 2 }; len = 2 }

two_bulks-Route : Route two_bulks 2 (1 ∷ []) 2
unfolding Route key_offset
two_bulks-Route = (refl, refl)

two_bulks-Follows : Follows two_bulks 1 (1 ∷ 2 ∷ [])
unfolding Follows key_offset
two_bulks-Follows = (refl, (refl, tt))

tape_events_example :
    events two_bulks 2 (tape_cursor two_bulks two_tape) ≡ contents two_bulks (1 ∷ 2 ∷ [])
tape_events_example = tape_events two_bulks (1 ∷ []) 2 2 two_bulks-Route (omega arith) (omega arith)

check_region-contents_example :
    check_region is_bulk two_bulks two_region
    ≡ check_kinds is_bulk (contents two_bulks (1 ∷ 2 ∷ []))
check_region-contents_example =
    check_region-contents is_bulk two_bulks two_region (1 ∷ 2 ∷ []) two_bulks-Follows refl
      (omega arith)

two_region-is_bulks :
    region_bulks 2 two_bulks two_region ≡ some (ok (record two_region { len = 1 }))
unfolding region_bulks check_region check_from batch take_value try_value key_offset
two_region-is_bulks = refl

spans_from-region_bulks_example :
    (two_region.len % 2 ≡ 0)
    × (record two_region { len = 1 } ≡ record two_region { len = as_u32 (two_region.len / 2) })
    × ((into_bulks (record two_region { len = 1 })).len ≡ 2)
    × (map some (spans_from two_bulks 2 1).0 ≡ map span_of_kind (contents two_bulks (1 ∷ 2 ∷ [])))
spans_from-region_bulks_example =
    spans_from-region_bulks 2 two_bulks two_region (1 ∷ 2 ∷ []) two_bulks-Follows refl (omega arith)
      two_region-is_bulks
