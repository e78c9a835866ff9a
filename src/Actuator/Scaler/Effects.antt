-- ===== src/Actuator/Scaler/Effects.antt =====
-- What a call of the scaler does to the cluster (actuator/scaler.py, `scale_deployment`).
use samsung.Prelude.{
  ℤ, pos, eqb_ℤ, ◌≡◌, ◌≢◌, ◌⊎◌, inl, inr, Bool-cases, subst, refl, true, false, Option, Text,
  or_else, arith,
}
use samsung.Actuator.Cluster.{
  Reply, answer, api_exception, exception, Cluster, IsReadOnly, returned, ActionOutcome, applied,
}
use samsung.Actuator.Scaler.{
  plan_text, clamp_replicas, ScaleOptions, move, patch_to, after_read, after_patch,
  scale_deployment,
}

module _ {W X : Type 0} (c : Cluster W X) (namespace name : Text) (reads : IsReadOnly c) where
  dry_patch :
      (target current : ℤ) (o : ScaleOptions) (w : W)
      → o.dry_run ≡ true
      → (move c namespace name target current o w).1 ≡ w
  unfolding move
  dry_patch target current o w dry = ground arith

  after_read_dry :
      (target : ℤ) (o : ScaleOptions) (r : Reply (Option ℤ)) (w : W)
      → o.dry_run ≡ true
      → (after_read c namespace name target o r w).1 ≡ w
  unfolding after_read
  after_read_dry target o (answer a) w dry = dry_patch target (or_else a (pos 0)) o w dry
  after_read_dry target o (api_exception s t) w dry = refl
  after_read_dry target o (exception t) w dry = refl

  -- With a read that changes nothing: in a dry run the world after the call is the one before it,
  -- whatever the client answers.
  pub scale_deployment_dry :
      (target : ℤ) (o : ScaleOptions) (w : W)
      → o.dry_run ≡ true
      → (scale_deployment c namespace name target o w).1 ≡ w
  unfolding scale_deployment
  scale_deployment_dry target o w dry =
      rw
        (after_read_dry target o (c.read_scale name namespace w).0 (c.read_scale name namespace w).1
          dry)
        (reads.read_scale_keeps name namespace w)

module _ {W X : Type 0} (c : Cluster W X) (namespace name : Text) where
  after_patch_applied :
      (plan : Text) (r : Reply (Unit {0})) (a : ActionOutcome)
      → after_patch namespace name plan r ≡ returned a
      → a.status ≡ applied
      → r ≡ answer tt
  unfolding after_patch
  after_patch_applied plan (answer t) a e s = refl
  after_patch_applied plan (api_exception status reason) a e s = ground arith
  after_patch_applied plan (exception t) a e s = cc

  -- What an applied outcome shows of the replicas that were read: the call asked for another
  -- number, outside a dry run, and the server took it.
  abbrev pub Patched : ℤ → ℤ → ScaleOptions → W → W → Type 0
  Patched target current o w w' =
      let final = clamp_replicas target current o.min_replicas o.max_replicas o.max_scale_step in
      (o.dry_run ≡ false)
      × (eqb_ℤ final current ≡ false)
      × ((c.patch_scale name namespace final w).0 ≡ answer tt)
      × (w' ≡ (c.patch_scale name namespace final w).1)

  move_applied :
      (target current : ℤ) (o : ScaleOptions) (w : W) (a : ActionOutcome)
      → (move c namespace name target current o w).0 ≡ returned a
      → a.status ≡ applied
      → Patched target current o w (move c namespace name target current o w).1
  unfolding move patch_to
  move_applied target current o w a e s =
      let final = clamp_replicas target current o.min_replicas o.max_replicas o.max_scale_step in
      ground (
        arith,
        after_patch_applied (plan_text current final target)
            (c.patch_scale name namespace final w).0 a,
      )

  applied_outcome :
      (plan : Text) (t : Unit {0}) (a : ActionOutcome)
      → after_patch namespace name plan (answer t) ≡ returned a
      → a.status ≡ applied
  unfolding after_patch
  applied_outcome plan t a e = ground arith

  raised_outcome :
      (plan message : Text) (a : ActionOutcome)
      → after_patch namespace name plan (exception message) ≢ returned a
  unfolding after_patch
  raised_outcome plan message a e = cc

  -- What a patch with an error shows: the call asked for the clamped target, another number than the one
  -- that was read, outside a dry run, the client raised an ApiException, and nothing else was called.
  abbrev pub Refused : ℤ → ℤ → ScaleOptions → W → W → Type 0
  Refused target current o w w' =
      let final = clamp_replicas target current o.min_replicas o.max_replicas o.max_scale_step in
      (o.dry_run ≡ false)
      × (eqb_ℤ final current ≡ false)
      × (status : ℤ) × (reason : Text) × (c.patch_scale name namespace final w
          ≡ (api_exception status reason, w'))

  patch_refused :
      (plan : Text) (p : Reply (Unit {0}) × W) (a : ActionOutcome)
      → after_patch namespace name plan p.0 ≡ returned a
      → a.status ≢ applied
      → (status : ℤ) × (reason : Text) × (p ≡ (api_exception status reason, p.1))
  patch_refused plan (answer t, w) a e s = absurd (s (applied_outcome plan t a e))
  patch_refused plan (api_exception status reason, w) a e s = (status, reason, refl)
  patch_refused plan (exception t, w) a e s = absurd (raised_outcome plan t a e)

  move_kept :
      (target current : ℤ) (o : ScaleOptions) (w : W) (a : ActionOutcome)
      → (move c namespace name target current o w).0 ≡ returned a
      → a.status ≢ applied
      → ((move c namespace name target current o w).1 ≡ w)
        ⊎ Refused target current o w (move c namespace name target current o w).1
  unfolding move patch_to
  move_kept target current o w a e s =
      let final = clamp_replicas target current o.min_replicas o.max_replicas o.max_scale_step in
      elim (Bool-cases (eqb_ℤ final current)) [
        | inl same ↦ inl (rw same refl)
        | inr other ↦ elim (Bool-cases o.dry_run) [
          | inl dry ↦ inl (rw (other, dry) refl)
          | inr wet ↦
              let patched : after_patch namespace name (plan_text current final target)
                    (c.patch_scale name namespace final w).0
                  ≡ returned a =
                ground arith in
              let (status, reason, refused) =
                patch_refused (plan_text current final target)
                  (c.patch_scale name namespace final w) a patched s in
              inr (wet, other, status, reason, rw (other, wet) refused)
        ]
      ]

  after_read_kept :
      (target : ℤ) (o : ScaleOptions) (r : Reply (Option ℤ)) (w : W) (a : ActionOutcome)
      → (after_read c namespace name target o r w).0 ≡ returned a
      → a.status ≢ applied
      → ((after_read c namespace name target o r w).1 ≡ w)
        ⊎ ((n : Option ℤ) × (r ≡ answer n)
            × Refused target (or_else n (pos 0)) o w (after_read c namespace name target o r w).1)
  unfolding after_read
  after_read_kept target o (answer n) w a e s =
      elim (move_kept target (or_else n (pos 0)) o w a e s) [
        | inl k ↦ inl k
        | inr p ↦ inr (n, refl, p)
      ]
  after_read_kept target o (api_exception status reason) w a e s = inl refl
  after_read_kept target o (exception message) w a e s = inl refl

  after_read_applied :
      (target : ℤ) (o : ScaleOptions) (r : Reply (Option ℤ)) (w : W) (a : ActionOutcome)
      → (after_read c namespace name target o r w).0 ≡ returned a
      → a.status ≡ applied
      → (n : Option ℤ) × (r ≡ answer n)
        × Patched target (or_else n (pos 0)) o w (after_read c namespace name target o r w).1
  unfolding after_read
  after_read_applied target o (answer n) w a e s =
      (n, refl, move_applied target (or_else n (pos 0)) o w a e s)
  after_read_applied target o (api_exception status reason) w a e s = ground arith
  after_read_applied target o (exception message) w a e s = cc

  -- A call whose outcome is `applied` has read the replicas, found that the clamped target differs
  -- from them, was not a dry run, and has patched the scale to the clamped target, which the
  -- server took.
  pub scale_deployment_applied :
      (target : ℤ) (o : ScaleOptions) (w : W) (a : ActionOutcome)
      → (scale_deployment c namespace name target o w).0 ≡ returned a
      → a.status ≡ applied
      → (n : Option ℤ) × ((c.read_scale name namespace w).0 ≡ answer n)
        × Patched target
            (or_else n (pos 0))
            o
            (c.read_scale name namespace w).1
            (scale_deployment c namespace name target o w).1
  unfolding scale_deployment
  scale_deployment_applied target o w a e s =
      after_read_applied target o (c.read_scale name namespace w).0
        (c.read_scale name namespace w).1 a e s

module _ {W X : Type 0} (c : Cluster W X) (namespace name : Text) (reads : IsReadOnly c) where
  -- With a read that changes nothing: a call with an outcome other than `applied` leaves the world as it
  -- was, or it made a patch to the clamped target that the client answered with an ApiException, and
  -- the world is the one after this patch.
  pub scale_deployment_kept :
      (target : ℤ) (o : ScaleOptions) (w : W) (a : ActionOutcome)
      → (scale_deployment c namespace name target o w).0 ≡ returned a
      → a.status ≢ applied
      → ((scale_deployment c namespace name target o w).1 ≡ w)
        ⊎ ((n : Option ℤ) × ((c.read_scale name namespace w).0 ≡ answer n)
            × Refused c namespace name target
                (or_else n (pos 0))
                o
                w
                (scale_deployment c namespace name target o w).1)
  unfolding scale_deployment
  scale_deployment_kept target o w a e s =
      subst
        (λ x.
          ((scale_deployment c namespace name target o w).1 ≡ x)
          ⊎ ((n : Option ℤ) × ((c.read_scale name namespace w).0 ≡ answer n)
              × Refused c namespace name target (or_else n (pos 0)) o x
                  (scale_deployment c namespace name target o w).1))
        (reads.read_scale_keeps name namespace w)
        (after_read_kept c namespace name target o (c.read_scale name namespace w).0
          (c.read_scale name namespace w).1 a e s)
