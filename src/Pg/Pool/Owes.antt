-- ===== src/Pg/Pool/Owes.antt =====
-- What the Sync state of a connection says of the replies that were admitted.
use mathlib.Core.List.{append-nil, append_assoc}
use mathlib.Core.Path.{subst}
use cartel.Base.{
  ℕ, suc, zero, List, Result, ◌≡◌, ◌≤◌, ◌⊎◌, ◌++◌, ◌∷◌, ◌+◌, ◌>>=◌, replicate, u32_max, ltb, arith,
  sym, ap, ◌∙◌, refl, true, false, ok, err, [], if◌then◌else◌, inl, inr, Bool,
}
use cartel.Pg.Pool.{Boundary, Error}
use cartel.Pg.Pool.Sync.{Sync, try_next}
use cartel.Pg.Pool.Slot.{sends_sync}

-- `try_next`, one boundary behind the other
unfoldable pub try_all : Sync → List Boundary → Result Error Sync
unfolding try_next
try_all s [] = ok s
try_all s (edge ∷ edges) = do next ← try_next s edge; try_all next edges

try_all-append :
    (s : Sync) (es fs : List Boundary) → try_all s (es ++ fs) ≡ (try_all s es >>= λ t. try_all t fs)
unfolding try_all
try_all-append s [] fs = refl
try_all-append s (e ∷ es) fs = on (try_next s e) (λ t. try_all-append t es fs)
  where
    on :
        (r : Result Error Sync)
        → ((t : Sync) → try_all t (es ++ fs) ≡ (try_all t es >>= λ u. try_all u fs))
        → (r >>= λ t. try_all t (es ++ fs)) ≡ ((r >>= λ t. try_all t es) >>= λ u. try_all u fs)
    on (err x) h = refl
    on (ok t) h = h t

-- The replies behind the last Sync: none, those of an automatic Sync, or the one that has its own.
abbrev pub Owes : List Boundary → Sync → Type 0
Owes edges Sync.synced =
    (edges ≡ [])
    ⊎ ((before : List Boundary) × ((last : Boundary) × ((edges ≡ before ++ last ∷ [])
            × (sends_sync last ≡ true))))
Owes edges (Sync.automatic depth) =
    (before : List Boundary) × ((edges ≡ before ++ replicate depth Boundary.opening)
      × (try_all Sync.synced before ≡ ok Sync.synced)
      × (1 ≤ depth)
      × (depth ≤ u32_max))
Owes edges (Sync.explicit depth) =
    (before : List Boundary) × ((edges ≡ before ++ Boundary.external ∷ [])
      × (try_all Sync.synced before ≡ ok Sync.synced)
      × (depth ≡ 1))

-- one more opening behind the others
replicate_snoc : {A : Type 0} (n : ℕ) (a : A) → replicate n a ++ a ∷ [] ≡ replicate (suc n) a
replicate_snoc zero a = refl
replicate_snoc (suc n) a = ap (λ xs. a ∷ xs) (replicate_snoc n a)

try_next-Owes :
    (edges : List Boundary) (s : Sync) (edge : Boundary) {t : Sync}
    → try_all Sync.synced edges ≡ ok s
    → Owes edges s
    → try_next s edge ≡ ok t
    → Owes (edges ++ edge ∷ []) t
unfolding try_next
try_next-Owes edges s edge {t = t} run owes h = on s edge t run owes h
  where
    closed : (edge : Boundary) → sends_sync edge ≡ true → Owes (edges ++ edge ∷ []) Sync.synced
    closed edge last = inr (edges, (edge, (refl, last)))

    to : (s t : Sync) → ◌≡◌ {A = Result Error Sync} (ok s) (ok t) → s ≡ t
    to s t e = cc

    more :
        (depth : ℕ) (b : Bool) (t : Sync)
        → ltb depth u32_max ≡ b
        → Owes edges (Sync.automatic depth)
        → (if b then ok (Sync.automatic (depth + 1)) else err (Error.request_depth_overflow depth))
          ≡ ok t
        → Owes (edges ++ Boundary.opening ∷ []) t
    more depth false t lt owes e = absurd (cc)
    more depth true t lt (before, (split, at, some_depth, fits)) e =
        let one : suc depth ≡ depth + 1 = omega arith in
        subst (Owes (edges ++ Boundary.opening ∷ [])) (to _ t e) (
          before,
          (
            ap (λ es. es ++ Boundary.opening ∷ []) split
                ∙ append_assoc before (replicate depth Boundary.opening) (Boundary.opening ∷ [])
                ∙ ap (λ es. before ++ es) (replicate_snoc depth Boundary.opening)
                ∙ ap (λ n. before ++ replicate n Boundary.opening) one,
            at,
            omega arith,
            ground (arith, lt),
          ),
        )

    on :
        (s : Sync) (edge : Boundary) (t : Sync)
        → try_all Sync.synced edges ≡ ok s
        → Owes edges s
        → try_next s edge ≡ ok t
        → Owes (edges ++ edge ∷ []) t
    on Sync.synced Boundary.close t run owes e =
        subst (Owes _) (to _ t e) (closed Boundary.close refl)
    on Sync.synced Boundary.begin t run owes e =
        subst (Owes _) (to _ t e) (closed Boundary.begin refl)
    on Sync.synced Boundary.commit t run owes e =
        subst (Owes _) (to _ t e) (closed Boundary.commit refl)
    on Sync.synced Boundary.group t run owes e =
        subst (Owes _) (to _ t e) (closed Boundary.group refl)
    on Sync.synced Boundary.opening t run owes e =
        subst (Owes _) (to _ t e) (edges, (refl, run, omega arith, omega arith))
    on Sync.synced Boundary.external t run owes e =
        subst (Owes _) (to _ t e) (edges, (refl, run, refl))
    on (Sync.automatic d) Boundary.close t run owes e =
        subst (Owes _) (to _ t e) (closed Boundary.close refl)
    on (Sync.automatic d) Boundary.begin t run owes e =
        subst (Owes _) (to _ t e) (closed Boundary.begin refl)
    on (Sync.automatic d) Boundary.commit t run owes e =
        subst (Owes _) (to _ t e) (closed Boundary.commit refl)
    on (Sync.automatic d) Boundary.group t run owes e = absurd (cc)
    on (Sync.automatic d) Boundary.opening t run owes e = more d (ltb d u32_max) t refl owes e
    on (Sync.automatic d) Boundary.external t run owes e = absurd (cc)
    on (Sync.explicit d) Boundary.close t run owes e = absurd (cc)
    on (Sync.explicit d) Boundary.begin t run owes e = absurd (cc)
    on (Sync.explicit d) Boundary.commit t run owes e = absurd (cc)
    on (Sync.explicit d) Boundary.group t run owes e = absurd (cc)
    on (Sync.explicit d) Boundary.opening t run owes e = absurd (cc)
    on (Sync.explicit d) Boundary.external t run owes e = absurd (cc)

-- ... behind the replies that were admitted before
try_all-Owes_from :
    (done edges : List Boundary) (s : Sync) {t : Sync}
    → try_all Sync.synced done ≡ ok s
    → Owes done s
    → try_all s edges ≡ ok t
    → Owes (done ++ edges) t
unfolding try_all
try_all-Owes_from done [] s {t = t} run owes e =
    let same : s ≡ t = cc in
    subst (λ u. Owes (done ++ []) u) same (subst (λ es. Owes es s) (sym (append-nil done)) owes)
try_all-Owes_from done (edge ∷ edges) s {t = t} run owes e =
    on (try_next s edge) refl e (λ u. try_all-Owes_from (done ++ edge ∷ []) edges u {t = t})
  where
    on :
        (r : Result Error Sync)
        → try_next s edge ≡ r
        → (r >>= λ u. try_all u edges) ≡ ok t
        → ((u : Sync)
            → try_all Sync.synced (done ++ edge ∷ []) ≡ ok u
            → Owes (done ++ edge ∷ []) u
            → try_all u edges ≡ ok t
            → Owes ((done ++ edge ∷ []) ++ edges) t)
        → Owes (done ++ edge ∷ edges) t
    on (err x) same h rest = absurd (cc)
    on (ok u) same h rest =
        subst (λ es. Owes es t) (append_assoc done (edge ∷ []) edges)
          (rest u
            (try_all-append Sync.synced done (edge ∷ [])
              ∙ ap (λ r. r >>= λ v. try_all v (edge ∷ [])) run
              ∙ ap (λ r. r >>= λ v. try_all v []) same)
            (try_next-Owes done s edge run owes same) h)

-- If replies are admitted one behind the other on a connection that owed no Sync, then the state says what
-- they are since the last Sync: nothing; as many openings as the depth, which is a u32; or the one reply
-- that carries its own Sync, at depth 1.
pub try_all-Owes :
    (edges : List Boundary) {t : Sync} → try_all Sync.synced edges ≡ ok t → Owes edges t
unfolding try_all
try_all-Owes edges e = try_all-Owes_from [] edges Sync.synced refl (inl refl) e
