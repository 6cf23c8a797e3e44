-- ===== src/Pg/Pool/Ready/Counts.antt =====
-- What the counters of the index count, and what an operation on one entry does to them.
use cartel.Base.{
  ℕ, Bool, Option, ◌≡◌, ◌≢◌, ◌+◌, suc, zero, List, set, get_elem?, not, ◌&&◌, arith, none, some,
  true, false, [], ◌∷◌, ap,
}
use cartel.Pg.Pool.Phases.{Access, Phase, get, is_receiving}
use cartel.Pg.Pool.Ready.Stored.{Stored}
use cartel.Pg.Pool.Slot.{Slot}
use cartel.Pg.Pool.Ready.{Index, Resident, Links}

abbrev pub ready_of : {K T F : Type 0} → Phase K T F → ℕ
ready_of (Phase.ready bound access) = 1
ready_of _ = 0

abbrev pub blocks_with : Access → ℕ
blocks_with (Access.reserved g) = 1
blocks_with (Access.held g) = 1
blocks_with _ = 0

abbrev pub blocks_of : {K T F : Type 0} → Phase K T F → ℕ
blocks_of (Phase.ready bound access) = blocks_with access
blocks_of _ = 0

abbrev pub shared_of : {K T F : Type 0} → Phase K T F → Bool
shared_of (Phase.ready bound (Access.shared sequence)) = true
shared_of _ = false

abbrev pub is_some : {A : Type 0} → Option A → Bool
is_some none = false
is_some (some a) = true

module _ {K T F : Type 0} where
  -- whether a resident is ready, whether it blocks, and whether a request may take it
  abbrev pub lives : Resident K T F → ℕ
  lives r = ready_of (get r.slot.phase)

  abbrev pub blocks : Resident K T F → ℕ
  blocks r = blocks_of (get r.slot.phase)

  abbrev pub is_free : Slot K T F → Bool
  is_free s = shared_of (get s.phase) && not (is_receiving s.phase)

  abbrev pub total : (Resident K T F → ℕ) → List (Resident K T F) → ℕ
  total f [] = 0
  total f (r ∷ rs) = f r + total f rs

  -- a resident is listed exactly if a request may take it, and its binding is never read before it is written
  pub record IsSound (r : Resident K T F) : Type 0 where
    pub listed : is_some r.priority ≡ is_free r.slot
    pub initialized : get r.slot.phase ≢ Phase.uninit

  pub total-set :
      (f : Resident K T F → ℕ) (rs : List (Resident K T F)) (i : ℕ) {r : Resident K T F}
      (r' : Resident K T F)
      → get_elem? rs i ≡ some r
      → total f (set rs i r') + f r ≡ total f rs + f r'
  total-set f [] i r' e = absurd (cc)
  total-set f (q ∷ rs) zero {r = r} r' e =
      let same : q ≡ r = cc in let weighs = ap f same in omega (arith, weighs)
  total-set f (q ∷ rs) (suc i) r' e = omega (arith, total-set f rs i r' e)

  module _ {L : Type 0} (hooks : Links L) where
    -- the counters count the residents that are ready and those that block
    pub record Inv (x : Index K T F L) : Type 0 where
      pub live : x.live ≡ total lives x.residents
      pub blockers : x.blockers ≡ total blocks x.residents
      pub sound : (i : ℕ) {r : Resident K T F} → get_elem? x.residents i ≡ some r → IsSound r
      pub stored : Stored hooks x

    -- an operation that replaces one resident
    pub record Replaced (x : Index K T F L) (i : ℕ) (r r' : Resident K T F) (y : Index K T F L)
        : Type 0 where
      pub residents : y.residents ≡ set x.residents i r'
      pub stored : Stored hooks y
      pub live : y.live + lives r ≡ x.live + lives r'
      pub blockers : y.blockers + blocks r ≡ x.blockers + blocks r'

    -- ... and leaves the counters alone
    pub record Wrote (x : Index K T F L) (i : ℕ) (r : Resident K T F) (y : Index K T F L)
        : Type 0 where
      pub residents : y.residents ≡ set x.residents i r
      pub stored : Stored hooks x → Stored hooks y
      pub live : y.live ≡ x.live
      pub blockers : y.blockers ≡ x.blockers
