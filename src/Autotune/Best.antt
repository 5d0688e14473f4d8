-- ===== src/Autotune/Best.antt =====
-- src/backends/autotune.rs: what the choice among the measurements is.
use csd_mining_pool_public.Prelude.{
  ◌≡◌, refl, sym, ap, ◌∙◌, ◌⊎◌, inl, inr, true, false, none, some, List, [], ◌∷◌, arith,
  if◌then◌else◌, All, Bool-cases, subst,
}
use csd_mining_pool_public.Autotune.{
  GeometryMeasurement, measurement_is_better, is_unusable, take_better, pick_from, pick_best,
}
use csd_mining_pool_public.Autotune.Order.{Usable, better_trans, better_irrefl}

-- The best of a first measurement and the usable ones of a list, as the loop goes.
abbrev better_of : GeometryMeasurement → GeometryMeasurement → GeometryMeasurement
better_of b m = if is_unusable m then b else if measurement_is_better m b then m else b

abbrev best_of : GeometryMeasurement → List GeometryMeasurement → GeometryMeasurement
best_of b [] = b
best_of b (m ∷ ms) = best_of (better_of b m) ms

abbrev pub Among : GeometryMeasurement → List GeometryMeasurement → Type 0
Among r [] = ⊥
Among r (m ∷ ms) = (r ≡ m) ⊎ Among r ms

taken :
    (b m : GeometryMeasurement)
    → (if is_unusable m then some b else take_better (some b) m) ≡ some (better_of b m)
unfolding take_better
taken b m = ground arith

pick_from-best_of :
    (b : GeometryMeasurement) (ms : List GeometryMeasurement)
    → pick_from (some b) ms ≡ some (best_of b ms)
unfolding pick_from
pick_from-best_of b [] = refl
pick_from-best_of b (m ∷ ms) =
    ap (λ o. pick_from o ms) (taken b m) ∙ pick_from-best_of (better_of b m) ms

-- How a step of the loop can go.
better_of_cases :
    (b m : GeometryMeasurement)
    → ((is_unusable m ≡ true) × (better_of b m ≡ b))
      ⊎ ((Usable m) × (measurement_is_better m b ≡ true) × (better_of b m ≡ m))
      ⊎ ((Usable m) × (measurement_is_better m b ≡ false) × (better_of b m ≡ b))
better_of_cases b m = elim (Bool-cases (is_unusable m)) [
  | inl bad ↦ inl (bad, rw bad refl)
  | inr good ↦ elim (Bool-cases (measurement_is_better m b)) [
    | inl wins ↦ inr (inl (good, wins, rw (good, wins) refl))
    | inr loses ↦ inr (inr (good, loses, rw (good, loses) refl))
  ]
]

-- The winner among `b` and the list.
record Best (b : GeometryMeasurement) (ms : List GeometryMeasurement) (r : GeometryMeasurement)
    : Type 0 where
  among : (r ≡ b) ⊎ Among r ms
  usable : Usable r
  first : measurement_is_better b r ≡ false
  improves : (r ≡ b) ⊎ (measurement_is_better r b ≡ true)
  others : All (λ m. (is_unusable m ≡ true) ⊎ (measurement_is_better m r ≡ false)) ms

-- What beats `y` and not `z` leaves `y` no better than `z`.
not_better :
    (x y z : GeometryMeasurement)
    → Usable x
    → Usable y
    → Usable z
    → measurement_is_better x y ≡ true
    → measurement_is_better x z ≡ false
    → measurement_is_better y z ≡ false
not_better x y z ux uy uz h e = elim (Bool-cases (measurement_is_better y z)) [
  | inr loses ↦ loses
  | inl wins ↦ absurd (cc (better_trans x y z ux uy uz h wins, e))
]

-- What does not beat `y` beats nothing that is `y` or better.
no_better :
    (x y z : GeometryMeasurement)
    → Usable x
    → Usable y
    → Usable z
    → measurement_is_better x y ≡ false
    → (z ≡ y) ⊎ (measurement_is_better z y ≡ true)
    → measurement_is_better x z ≡ false
no_better x y z ux uy uz h (inl same) = ap (measurement_is_better x) same ∙ h
no_better x y z ux uy uz h (inr above) = elim (Bool-cases (measurement_is_better x z)) [
  | inr loses ↦ loses
  | inl wins ↦ absurd (cc (better_trans x z y ux uz uy wins above, h))
]

best_of-Best :
    (b : GeometryMeasurement) (ms : List GeometryMeasurement) → Usable b → Best b ms (best_of b ms)
best_of-Best b [] u = record {
  among = inl refl;
  usable = u;
  first = better_irrefl b u;
  improves = inl refl;
  others = tt;
}
best_of-Best b (m ∷ ms) u = elim (better_of_cases b m) [
  | inl (bad, e) ↦
      let k = best_of-Best b ms u in
      subst (λ c. Best b (m ∷ ms) (best_of c ms)) (sym e)
        (record {
          among = elim k.among [ inl same ↦ inl same | inr there ↦ inr (inr there) ];
          usable = k.usable;
          first = k.first;
          improves = k.improves;
          others = (inl bad, k.others);
        })
  | inr (inl (good, wins, e)) ↦
      let k = best_of-Best m ms good in
      subst (λ c. Best b (m ∷ ms) (best_of c ms)) (sym e)
        (record {
          among = elim k.among [ inl same ↦ inr (inl same) | inr there ↦ inr (inr there) ];
          usable = k.usable;
          first = not_better m b (best_of m ms) good u k.usable wins k.first;
          improves = inr (elim k.improves [
            | inl same ↦ ap (λ r. measurement_is_better r b) same ∙ wins
            | inr above ↦ better_trans (best_of m ms) m b k.usable good u above wins
          ]);
          others = (inr k.first, k.others);
        })
  | inr (inr (good, loses, e)) ↦
      let k = best_of-Best b ms u in
      subst (λ c. Best b (m ∷ ms) (best_of c ms)) (sym e)
        (record {
          among = elim k.among [ inl same ↦ inl same | inr there ↦ inr (inr there) ];
          usable = k.usable;
          first = k.first;
          improves = k.improves;
          others = (inr (no_better m b (best_of b ms) good u k.usable loses k.improves), k.others);
        })
]

-- A measurement of a list is beaten by none that is usable.
abbrev pub Unbeaten : GeometryMeasurement → List GeometryMeasurement → Type 0
Unbeaten r = All (λ m. (is_unusable m ≡ true) ⊎ (measurement_is_better m r ≡ false))

-- The choice is none exactly of measurements that are all unusable; else it is a usable one of
-- them that no usable one of them beats, by rate and then by shape.
pub pick_best_lem :
    (ms : List GeometryMeasurement)
    → ((pick_best ms ≡ none) × All (λ m. is_unusable m ≡ true) ms)
      ⊎ ((r : GeometryMeasurement) × (pick_best ms ≡ some r)
          × Among r ms
          × (is_unusable r ≡ false)
          × Unbeaten r ms)
unfolding pick_best pick_from
pick_best_lem [] = inl (refl, tt)
pick_best_lem (m ∷ ms) = elim (Bool-cases (is_unusable m)) [
  | inl bad ↦ elim (pick_best_lem ms) [
    | inl (nothing, all) ↦
        inl (
          ap (λ b. pick_from (if b then none else take_better none m) ms) bad ∙ nothing,
          (bad, all),
        )
    | inr (r, is_r, there, usable, unbeaten) ↦ inr (
      r,
      ap (λ b. pick_from (if b then none else take_better none m) ms) bad ∙ is_r,
      inr there,
      usable,
      (inl bad, unbeaten),
    )
  ]
  | inr good ↦
      let k = best_of-Best m ms good in
      inr (
        best_of m ms,
        ap (λ b. pick_from (if b then none else take_better none m) ms) good
            ∙ (unfold take_better in pick_from-best_of m ms),
        elim k.among [ inl same ↦ inl same | inr there ↦ inr there ],
        k.usable,
        (inr k.first, k.others),
      )
]
