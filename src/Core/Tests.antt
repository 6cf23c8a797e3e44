-- ===== src/Core/Tests.antt =====
-- A lane with room for two entries at work.
use cartel.Base.{
  ℕ, refl, none, some, ok, err, [], arith, if◌then◌else◌, inl, inr, List, Option, Result, length,
  ◌≡◌, ◌∷◌, ltb, ◌%◌, ◌+◌, ◌++◌, Bool-cases, ap, ◌-◌, ◌==◌, sym, ◌∙◌,
}
use cartel.Core.Handoff.{try_publish}
use cartel.Core.Handoff.Atomic.{Handed, try_publish-Handed}
use cartel.Core.Queue.{Admission, Entry, Fair, Requests, clear, drain, usize_weight}
use cartel.Core.Queue.Drains.{Cleared, clear-Cleared}
use cartel.Core.Queue.Sends.{Drained, IsLink, drain-Drained}
use cartel.Core.Queue.Weights.{IsBalanced, IsFair, weight_sum}

-- the entries and the weight of a lane
abbrev Region : Type 0
Region = List (Entry ℕ ℕ) × ℕ

abbrev front_of : Region → Option (Entry ℕ ℕ × Region)
front_of ([], w) = none
front_of (e ∷ es, w) = some (e, (es, w))

abbrev reserve_two : Region → Result ℕ Region
reserve_two (es, w) = if ltb (length es) 2 then ok (es, w) else err 0

abbrev list_lane : Fair Region ℕ ℕ ℕ
list_lane = record {
  index = 0;
  state = λ g. g.1;
  set_state = λ g w. (g.0, w);
  len = λ g. length (g.0);
  reserve = reserve_two;
  take_front = front_of;
  push_back = λ g e. (g.0 ++ e ∷ [], g.1);
  push_front = λ g e. (e ∷ g.0, g.1);
  drop_permit = λ g. g;
}

abbrev entries_of : Region → List (Entry ℕ ℕ)
entries_of g = g.0

abbrev overflow : (axis held requested : ℕ) → ℕ
overflow axis held requested = 1

reserved_lem :
    (g : Region) {g' : Region}
    → reserve_two g ≡ ok g'
    → (entries_of g' ≡ entries_of g) × (list_lane.state g' ≡ list_lane.state g)
reserved_lem (es, w) {g' = g'} h = elim (Bool-cases (ltb (length es) 2)) [
  | inl e ↦
      let h' = rw e at h in
      let same : (es, w) ≡ g' = cc in (sym (ap entries_of same), sym (ap list_lane.state same))
  | inr e ↦ let h' = rw e at h in absurd (cc)
]

fronted_lem :
    (g : Region) {e : Entry ℕ ℕ} {g' : Region}
    → front_of g ≡ some (e, g')
    → (entries_of g ≡ e ∷ entries_of g') × (list_lane.state g' ≡ list_lane.state g)
fronted_lem ([], w) h = absurd (cc)
fronted_lem (x ∷ es, w) {e = e} {g' = g'} h =
    let first : x ≡ e = cc in
    let rest : (es, w) ≡ g' = cc in
    (ap (λ y. y ∷ es) first ∙ ap (λ r. e ∷ entries_of r) rest, sym (ap list_lane.state rest))

fronted_none_lem : (g : Region) → front_of g ≡ none → entries_of g ≡ []
fronted_none_lem ([], w) h = refl
fronted_none_lem (x ∷ es, w) h = absurd (cc)

list_lane-IsFair : IsFair list_lane entries_of
list_lane-IsFair = record {
  state-set_state = λ g w. refl;
  entries-set_state = λ g w. refl;
  len = λ g. refl;
  reserved = reserved_lem;
  fronted = fronted_lem;
  fronted_none = fronted_none_lem;
  entries-push_back = λ g e. refl;
  entries-push_front = λ g e. refl;
  state-push_back = λ g e. refl;
  state-push_front = λ g e. refl;
  entries-drop_permit = λ g. refl;
  state-drop_permit = λ g. refl;
}

abbrev two_entries : Region
two_entries = (record { value = 7; weight = 3 } ∷ record { value = 8; weight = 4 } ∷ [], 7)

two_entries-IsBalanced : IsBalanced list_lane overflow entries_of list_lane-IsFair two_entries
unfolding weight_sum
two_entries-IsBalanced = record { sum = refl; fits = omega arith }

clear-Cleared_example :
    Cleared list_lane overflow entries_of list_lane-IsFair two_entries
      (clear list_lane (usize_weight overflow) (λ n. ltb 0 n) (λ n. n - 1) 3 1 two_entries)
clear-Cleared_example =
    clear-Cleared list_lane overflow entries_of list_lane-IsFair (λ n. ltb 0 n) (λ n. n - 1) 3 1
      two_entries (omega arith) two_entries-IsBalanced

-- a link that takes odd values
abbrev odd_only : ℕ → Admission ℕ ℕ
odd_only v = if v % 2 == 1 then Admission.ready else Admission.saturated v

abbrev odd_link : Requests Region ℕ ℕ ℕ
odd_link = record { claim = front_of; admit = λ g v. (odd_only v, g); push_with = λ g f. f g }

saturated_lem : (v : ℕ) {back : ℕ} → odd_only v ≡ Admission.saturated back → back ≡ v
saturated_lem v h = elim (Bool-cases (v % 2 == 1)) [
  | inl e ↦ let h' = rw e at h in absurd (cc)
  | inr e ↦ let h' = rw e at h in cc
]

rejected_lem : (v : ℕ) {back cause : ℕ} → odd_only v ≡ Admission.rejected back cause → back ≡ v
rejected_lem v h = elim (Bool-cases (v % 2 == 1)) [
  | inl e ↦ let h' = rw e at h in absurd (cc)
  | inr e ↦ let h' = rw e at h in absurd (cc)
]

odd_link-IsLink : IsLink list_lane entries_of odd_link
odd_link-IsLink = record {
  claimed = fronted_lem;
  entries-admit = λ g v. refl;
  state-admit = λ g v. refl;
  saturated = λ g v. saturated_lem v;
  rejected = λ g v. rejected_lem v;
  entries-push_with = λ g f. refl;
  state-push_with = λ g f. refl;
}

drain-Drained_example :
    Drained list_lane overflow entries_of list_lane-IsFair odd_link odd_link-IsLink two_entries
      (drain list_lane (usize_weight overflow) odd_link 3 two_entries)
drain-Drained_example =
    drain-Drained list_lane overflow entries_of list_lane-IsFair odd_link odd_link-IsLink 3
      two_entries (omega arith) two_entries-IsBalanced

abbrev one_entry : Region
one_entry = (record { value = 7; weight = 3 } ∷ [], 3)

one_entry-IsBalanced : IsBalanced list_lane overflow entries_of list_lane-IsFair one_entry
unfolding weight_sum
one_entry-IsBalanced = record { sum = refl; fits = omega arith }

-- replies are attached to small tags only
abbrev attach : Region → (tag : ℕ) → Result ℕ (Unit {0}) × Region
attach g tag = (if ltb tag 5 then ok tt else err tag, g)

abbrev build : ℕ → ℕ × ℕ
build input = (input + 1, input)

try_publish-Handed_example :
    Handed list_lane overflow entries_of list_lane-IsFair attach build
      (λ g tag. (refl, refl))
      one_entry
      4
      2
      9
      (try_publish list_lane (usize_weight overflow) attach build one_entry 4 2 9)
try_publish-Handed_example =
    try_publish-Handed list_lane overflow entries_of list_lane-IsFair attach build
      (λ g tag. (refl, refl)) one_entry 4 2 9 one_entry-IsBalanced
