-- ===== src/Policy/Scaling/Targets.antt =====
-- The targets that policy/scaling.py decides on.
use samsung.Prelude.{
  some_inj, ℤ, pos, ◌+ℤ◌, ◌≤ℤ◌, ◌<ℤ◌, ltb_ℤ, leb_ℤ, ltb_ℤ→lt, max_ℤ, ◌⊎◌, ◌≡◌, refl, Bool, true,
  false, ◌&&◌, Option, none, some, Float, ◌>>=◌, if◌then◌else◌, Bool-cases, inl, inr, int_laws,
  arith,
}
use samsung.Policy.Scaling.{
  Direction, up, down, hold, ScaleAssessment, clamp, choose, below_scale_down, assess_pods,
  assess_scaling, missing_pods, missing_input, rps_candidate, capacity_target_for_anomaly,
}

and_true : (a b : Bool) → (a && b) ≡ true → (a ≡ true) × (b ≡ true)
and_true a b h = (ground arith, ground arith)

none_ne {ℓ} : {A : Type ℓ} {a : A} → none ≡ some a → ⊥
none_ne e = cc

-- bounds that are in order
module _ (l h : ℤ) (ordered : l ≤ℤ h) where
  clamp_range : (v : ℤ) → (l ≤ℤ clamp v (some l) (some h)) × (clamp v (some l) (some h) ≤ℤ h)
  unfolding clamp
  clamp_range v = grind int_laws

  clamp_above :
      (v c : ℤ)
      → c <ℤ v
      → (l ≤ℤ clamp v (some l) (some h))
        × (clamp v (some l) (some h) ≤ℤ h)
        × ((c <ℤ clamp v (some l) (some h)) ⊎ (clamp v (some l) (some h) ≡ h))
  unfolding clamp
  clamp_above v c above = elim (Bool-cases (ltb_ℤ c h)) [
    | inl room ↦ (grind int_laws, grind int_laws, inl (grind int_laws))
    | inr full ↦ (grind int_laws, grind int_laws, inr (grind int_laws))
  ]

  module _ {F : Type 0} ⦃fl : Float F⦄ (rps : Option F) (current : Option ℤ)
      (target scale_down : Option F) where
    -- the inputs, and the target within the bounds
    pub record Measured (n : ℤ) : Type 0 where
      pub requests : F
      pub pods : ℤ
      pub per_pod : F
      pub has_requests : rps ≡ some requests
      pub has_pods : current ≡ some pods
      pub has_target : target ≡ some per_pod
      pub not_below : l ≤ℤ n
      pub not_above : n ≤ℤ h

    -- What a direction with its target rests on.
    abbrev pub Founded : Direction → Option ℤ → Type 0
    Founded up (some n) =
        (m : Measured n) × (fl.lt m.per_pod (fl.div m.requests (fl.of_int m.pods)) ≡ true)
        × (m.pods <ℤ n)
    Founded down (some n) =
        (m : Measured n) × (below_scale_down (fl.div m.requests (fl.of_int m.pods)) scale_down
          ≡ true)
        × (n <ℤ m.pods)
    Founded hold none = Unit
    Founded up none = ⊥
    Founded down none = ⊥
    Founded hold (some n) = ⊥

module _ (l h : ℤ) (ordered : l ≤ℤ h) {F : Type 0} ⦃fl : Float F⦄ where
  choose-Founded :
      (r : F) (c : ℤ) (t : F) (sd : Option F) (v : ℤ)
      → let s = choose r c t sd (clamp v (some l) (some h)) in
        Founded l h ordered (some r) (some c) (some t) sd s.direction s.target_replicas
  unfolding choose
  choose-Founded r c t sd v =
      let n = clamp v (some l) (some h) in
      let per_pod = fl.div r (fl.of_int c) in
      let m : Measured l h ordered (some r) (some c) (some t) sd n = record {
        requests = r;
        pods = c;
        per_pod = t;
        has_requests = refl;
        has_pods = refl;
        has_target = refl;
        not_below = (clamp_range l h ordered v).0;
        not_above = (clamp_range l h ordered v).1;
      } in
      elim (Bool-cases (fl.lt t per_pod && ltb_ℤ c n)) [
        | inl e ↦ rw e (m, (and_true _ _ e).0, ltb_ℤ→lt c n (and_true _ _ e).1)
        | inr e ↦ elim (Bool-cases (below_scale_down per_pod sd && ltb_ℤ n c)) [
          | inl g ↦ rw (e, g) (m, (and_true _ _ g).0, ltb_ℤ→lt n c (and_true _ _ g).1)
          | inr g ↦ rw (e, g) tt
        ]
      ]

  assess_pods-Founded :
      (r : F) (current : Option ℤ) (t : F) (sd : Option F) (s : ScaleAssessment F)
      → assess_pods r current t sd (some l) (some h) ≡ some s
      → Founded l h ordered (some r) current (some t) sd s.direction s.target_replicas
  unfolding assess_pods missing_pods
  assess_pods-Founded r none t sd s e = rw (← some_inj e) tt
  assess_pods-Founded r (some c) t sd s e = by_pods (leb_ℤ c (pos 0)) (fl.ceil (fl.div r t)) e
    where
      by_pods :
          (b : Bool) (o : Option ℤ)
          → (if b
              then some (missing_pods (some c))
              else (o >>= λ v. some (choose r c t sd (clamp v (some l) (some h)))))
            ≡ some s
          → Founded l h ordered (some r) (some c) (some t) sd s.direction s.target_replicas
      by_pods true o q = rw (← some_inj q) tt
      by_pods false none q = cc
      by_pods false (some v) q = rw (← some_inj q) (choose-Founded r c t sd v)

  -- With bounds that are in order: an assessment to scale up has the requests, the pods and the target
  -- per pod at hand, the requests per pod are above the target, and the new number is above the
  -- current one and within the bounds; one to scale down has them below the scale-down limit and the
  -- new number below the current one and within the bounds; any other has no target.
  pub assess_scaling-Founded :
      (rps : Option F) (current : Option ℤ) (target scale_down : Option F) (s : ScaleAssessment F)
      → assess_scaling rps current target scale_down (some l) (some h) ≡ some s
      → Founded l h ordered rps current target scale_down s.direction s.target_replicas
  unfolding assess_scaling missing_input
  assess_scaling-Founded (some r) current (some t) sd s e =
      by_target (fl.le t (fl.of_int (pos 0))) e
    where
      by_target :
          (b : Bool)
          → (if b
              then some (missing_input current)
              else assess_pods r current t sd (some l) (some h))
            ≡ some s
          → Founded l h ordered (some r) current (some t) sd s.direction s.target_replicas
      by_target true q = rw (← some_inj q) tt
      by_target false q = assess_pods-Founded r current t sd s q
  assess_scaling-Founded (some r) current none sd s e = rw (← some_inj e) tt
  assess_scaling-Founded none current target sd s e = rw (← some_inj e) tt

  rps_candidate_above :
      (rps target : Option F) (c v : ℤ) → rps_candidate rps target (c +ℤ pos 1) ≡ some v → c <ℤ v
  unfolding rps_candidate
  rps_candidate_above none target c v e = rw (← some_inj e) (grind int_laws)
  rps_candidate_above (some r) none c v e = rw (← some_inj e) (grind int_laws)
  rps_candidate_above (some r) (some t) c v e =
      by_target (fl.lt (fl.of_int (pos 0)) t) (fl.ceil (fl.div r t)) e
    where
      by_target :
          (b : Bool) (o : Option ℤ)
          → (if b then (o >>= λ n. some (max_ℤ (c +ℤ pos 1) n)) else some (c +ℤ pos 1)) ≡ some v
          → c <ℤ v
      by_target false o q = rw (← some_inj q) (grind int_laws)
      by_target true none q = cc
      by_target true (some n) q = rw (← some_inj q) (grind int_laws)

  -- With bounds that are in order: the capacity target for an anomaly is within them, and it is above
  -- the current number of pods or the upper bound itself.
  pub capacity_target_for_anomaly_grows :
      (rps : Option F) (c : ℤ) (target : Option F) (n : ℤ)
      → capacity_target_for_anomaly rps (some c) target (some l) (some h) ≡ some (some n)
      → (l ≤ℤ n) × (n ≤ℤ h) × ((c <ℤ n) ⊎ (n ≡ h))
  unfolding capacity_target_for_anomaly rps_candidate
  capacity_target_for_anomaly_grows rps c target n e =
      by_pods (leb_ℤ c (pos 0)) (rps_candidate rps target (c +ℤ pos 1)) refl e
    where
      by_pods :
          (b : Bool) (o : Option ℤ)
          → rps_candidate rps target (c +ℤ pos 1) ≡ o
          → (if b then some none else (o >>= λ v. some (some (clamp v (some l) (some h)))))
            ≡ some (some n)
          → (l ≤ℤ n) × (n ≤ℤ h) × ((c <ℤ n) ⊎ (n ≡ h))
      by_pods true o f q = absurd (none_ne (some_inj q))
      by_pods false none f q = cc
      by_pods false (some v) f q =
          rw (← some_inj (some_inj q))
            (clamp_above l h ordered v c (rps_candidate_above rps target c v f))
