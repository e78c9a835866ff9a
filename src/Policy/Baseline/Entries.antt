-- ===== src/Policy/Baseline/Entries.antt =====
-- The store of baselines as a map (policy/baseline.py).
use samsung.Prelude.{
  ◌≡◌, refl, subst, false, some, [], ◌∷◌, Text, text_eq, text_eq_refl, text_eq→eq, Float,
  Bool-cases, inl, inr, arith,
}
use samsung.Schemas.{Spec}
use samsung.Policy.Baseline.{Baseline, Store, lookup, put, target_key, get_baseline, new_baseline}

module _ {F : Type 0} where
  pub lookup-put : (k : Text) (b : Baseline F) (s : Store F) → lookup k (put k b s) ≡ some b
  unfolding lookup put
  lookup-put k b [] = rw (text_eq_refl k) refl
  lookup-put k b ((j, c) ∷ s) = elim (Bool-cases (text_eq k j)) [
    | inl e ↦ rw (e, e) refl
    | inr e ↦ rw (e, e) (lookup-put k b s)
  ]

  pub lookup-put_other :
      (k other : Text) (b : Baseline F) (s : Store F)
      → text_eq other k ≡ false
      → lookup other (put k b s) ≡ lookup other s
  unfolding lookup put
  lookup-put_other k other b [] h = rw h refl
  lookup-put_other k other b ((j, c) ∷ s) h = elim (Bool-cases (text_eq k j)) [
    | inl e ↦
        let off : text_eq other j ≡ false =
          subst (λ x. text_eq other x ≡ false) (text_eq→eq k j e) h in
        rw (e, off) refl
    | inr e ↦ ground (arith, e, lookup-put_other k other b s h)
  ]

module _ {F : Type 0} ⦃fl : Float F⦄ (spec : Spec F) (s : Store F) where
  pub get_baseline-lookup :
      lookup (target_key spec) (get_baseline spec s).1 ≡ some (get_baseline spec s).0
  unfolding get_baseline
  get_baseline-lookup = ground (arith, lookup-put (target_key spec) new_baseline s)

  pub get_baseline-lookup_other :
      (other : Text)
      → text_eq other (target_key spec) ≡ false
      → lookup other (get_baseline spec s).1 ≡ lookup other s
  unfolding get_baseline
  get_baseline-lookup_other other h =
      ground (arith, lookup-put_other (target_key spec) other new_baseline s h)
