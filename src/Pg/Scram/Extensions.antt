-- ===== src/Pg/Scram/Extensions.antt =====
-- pg/src/protocol/scram/parser.rs: the loop of `Attributes::extensions` ends.
use cartel.Base.{
  Option, Result, [], ap, arith, err, length, length-append, none, ok, refl, some, suc, zero, ℕ,
  ◌+◌, ◌<◌, ◌∷◌, ◌≡◌, ◌≢◌, ◌≤◌,
}
use cartel.Pg.Reason.{Reason}
use cartel.Pg.Wire.{Wire}
use cartel.Pg.Scram.{Attribute, Attributes, Names, next, next_in, attribute_of, admit_extension}
use cartel.Pg.Scram.Messages.{extensions, extensions_from, tail_length}
use cartel.Pg.Scram.Next.{behind, next-Taken}

-- attributes as `Attributes::new` and `Attributes::next` leave them
unfoldable pub IsAttributes : Attributes → Type 0
IsAttributes attrs = tail_length attrs.tail ≤ attrs.length

next-fuel : (attrs : Attributes) → next attrs ≢ err Reason.out_of_fuel
unfolding next next_in attribute_of
next-fuel attrs = at attrs.tail
  where
    at : (o : Option Wire) → next (record attrs { tail = o }) ≢ err Reason.out_of_fuel
    at none = λ e. cc
    at (some []) = λ e. cc
    at (some (x ∷ [])) = λ e. cc
    at (some (x ∷ y ∷ [])) = λ e. cc
    at (some (x ∷ y ∷ b ∷ bs)) = λ e. ground arith

admit_extension-fuel :
    (names : Names) (a : Attribute) → admit_extension names a ≢ err Reason.out_of_fuel
unfolding admit_extension
admit_extension-fuel names a = λ e. ground arith

tail_le : (o : Option Wire) → tail_length o ≤ length (behind o)
unfolding behind
tail_le none = omega arith
tail_le (some bytes) = omega arith

-- an attribute leaves fewer bytes
next-shorter :
    (attrs : Attributes) {a : Attribute} {attrs' : Attributes}
    → IsAttributes attrs
    → next attrs ≡ ok (some a, attrs')
    → IsAttributes attrs' × (tail_length attrs'.tail < tail_length attrs.tail)
unfolding IsAttributes next
next-shorter attrs {a} {attrs'} h e = at attrs.tail h e
  where
    at :
        (o : Option Wire)
        → tail_length o ≤ attrs.length
        → next (record attrs { tail = o }) ≡ ok (some a, attrs')
        → IsAttributes attrs' × (tail_length attrs'.tail < tail_length o)
    at none h e = absurd (cc)
    at (some bytes) h e =
        let taken = next-Taken attrs.length bytes e h in
        let text = ap length taken.text in
        let sum = length-append a.value (behind attrs'.tail) in
        (
          omega (arith, taken.same_length, tail_le attrs'.tail, text, sum),
          omega (arith, tail_le attrs'.tail, text, sum),
        )

-- one round of the loop, from what holds of the next one
extensions_from-step :
    (fuel : ℕ) (names : Names) (attrs : Attributes)
    → IsAttributes attrs
    → tail_length attrs.tail < suc fuel
    → ((names' : Names) (attrs' : Attributes)
        → IsAttributes attrs'
        → tail_length attrs'.tail < fuel
        → extensions_from fuel names' attrs' ≢ err Reason.out_of_fuel)
    → extensions_from (suc fuel) names attrs ≢ err Reason.out_of_fuel
unfolding extensions_from
extensions_from-step fuel names attrs h lt ih = at (next attrs) refl
  where
    admitted :
        (a : Attribute) (attrs' : Attributes)
        → next attrs ≡ ok (some a, attrs')
        → (r : Result Reason Names) → admit_extension names a ≡ r
        → extensions_from (suc fuel) names attrs ≢ err Reason.out_of_fuel
    admitted a attrs' n (err reason) m =
        rw (n, extensions_from) (rw m (λ e. admit_extension-fuel names a (cc)))
    admitted a attrs' n (ok names') m =
        let (well, shorter) = next-shorter attrs h n in
        rw (n, extensions_from) (rw m (ih names' attrs' well (omega arith)))

    at :
        (r : Result Reason (Option Attribute × Attributes))
        → next attrs ≡ r
        → extensions_from (suc fuel) names attrs ≢ err Reason.out_of_fuel
    at (err reason) n = rw (n, extensions_from) (λ e. next-fuel attrs (cc))
    at (ok (none, attrs')) n = rw (n, extensions_from) (λ e. cc)
    at (ok (some a, attrs')) n = admitted a attrs' n (admit_extension names a) refl

-- From attributes as the parser leaves them, the loop over extensions never stops for want of fuel.
pub extensions_ends :
    (attrs : Attributes) → IsAttributes attrs → extensions attrs ≢ err Reason.out_of_fuel
unfolding extensions extensions_from
extensions_ends attrs h = from (tail_length attrs.tail + 1) 0 attrs h (omega arith)
  where
    from :
        (fuel : ℕ) (names : Names) (attrs : Attributes)
        → IsAttributes attrs
        → tail_length attrs.tail < fuel
        → extensions_from fuel names attrs ≢ err Reason.out_of_fuel
    from zero names attrs h lt = absurd (omega arith)
    from (suc fuel) names attrs h lt = extensions_from-step fuel names attrs h lt (from fuel)
