-- ===== src/Resp/Mode/Left.antt =====
-- redis/src/protocol/parser/state.rs: `State::finish_value` counts the values that are still to come.
use cartel.Base.{
  Bool-cases, List, Option, [], arith, if◌then◌else◌, inl, inr, length, none, refl, some, suc, ℕ,
  ◌+◌, ◌-◌, ◌<◌, ◌==◌, ◌∷◌, ◌≡◌, ◌≤◌,
}
use cartel.Resp.Mode.{finish_left}

-- every open array has an element to come
unfoldable pub AllOpen : List ℕ → Type 0
AllOpen [] = Unit
AllOpen (left ∷ parents) = (0 < left) × AllOpen parents

-- the values, now being read or announced, that a reply with these open arrays still needs
pub wanted : List ℕ → ℕ
wanted [] = 1
wanted (left ∷ parents) = (left - 1) + wanted parents

abbrev pub Finishes : List ℕ → Option (List ℕ) → Type 0
Finishes left none = wanted left ≡ 1
Finishes left (some left') =
    (wanted left ≡ suc (wanted left')) × AllOpen left' × (length left' ≤ length left)

-- Of open arrays with an element to come each: a finished value takes one from the values that the
-- reply still needs. The reply is complete exactly when that was the last one; else every array that
-- stays open has an element to come, and no array is opened.
pub finish_left-wanted : (left : List ℕ) → AllOpen left → Finishes left (finish_left left)
unfolding finish_left AllOpen wanted
finish_left-wanted [] h = refl
finish_left-wanted (left ∷ parents) h = at (finish_left parents) (finish_left-wanted parents h.1)
  where
    at :
        (o : Option (List ℕ))
        → Finishes parents o
        → Finishes (left ∷ parents) (if left - 1 == 0 then o else some ((left - 1) ∷ parents))
    at none e = elim (Bool-cases (left - 1 == 0)) [
      | inl z ↦ rw z (ground arith)
      | inr nz ↦ rw nz (ground arith, (ground arith, h.1), omega arith)
    ]
    at (some l) e = elim (Bool-cases (left - 1 == 0)) [
      | inl z ↦ rw z (ground (arith, e.0), e.1, omega (arith, e.2))
      | inr nz ↦ rw nz (ground arith, (ground arith, h.1), omega arith)
    ]
