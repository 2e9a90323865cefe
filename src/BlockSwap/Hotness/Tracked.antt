-- ===== src/BlockSwap/Hotness/Tracked.antt =====
-- What the hotness tracker keeps: its three dicts are of the same blocks, and after a step its
-- maximum is one.
use orch_kv_cache.Prelude.{
  ℕ, ◌≤◌, ◌==◌, ◌≡◌, refl, sym, ap, ◌∙◌, true, false, Option, some, List, [], ◌∷◌, arith, All,
  Bool-cases, inl, inr, if◌then◌else◌,
}
use mathlib.Core.Path.{subst}
use orch_kv_cache.Prelude.Dict.{
  find, has_key, nat_key, has_key-put, has_key-without, find-put_cases, find_of_without,
}
use orch_kv_cache.Prelude.Float.{Float, IsOrdered}
use orch_kv_cache.BlockSwap.Hotness.{
  HotnessTracker, tiny, new_tracker, hotness_report, decayed, highest, hotness_step_done,
  hotness_remove,
}

module _ {ℓ} {F : Type ℓ} ⦃float : Float F⦄ (o : IsOrdered F) where
  highest_above :
      (m x : F) (ema : List (ℕ × F)) → float.less m x ≡ false → float.less (highest m ema) x ≡ false
  highest_above m x [] h = h
  highest_above m x (entry ∷ ema) h = elim (Bool-cases (float.less m entry.1)) [
    | inl e ↦
        let kept : float.less entry.1 x ≡ false = elim (Bool-cases (float.less entry.1 x)) [
          | inl e' ↦ absurd (cc (o.less_trans m entry.1 x e e'))
          | inr e' ↦ e'
        ] in
        rw e (highest_above entry.1 x ema kept)
    | inr e ↦ rw e (highest_above m x ema h)
  ]

  highest_cons :
      (m n : F) (entry : ℕ × F) (ema : List (ℕ × F))
      → highest m (entry ∷ ema) ≡ highest n ema
      → float.less (highest n ema) entry.1 ≡ false
      → All (λ e. float.less (highest n ema) e.1 ≡ false) ema
      → All (λ e. float.less (highest m (entry ∷ ema)) e.1 ≡ false) (entry ∷ ema)
  highest_cons m n entry ema same first others =
      subst (λ h. All (λ (e : ℕ × F). float.less h e.1 ≡ false) (entry ∷ ema)) (sym same)
        (first, others)

  highest-All :
      (m : F) (ema : List (ℕ × F)) → All (λ entry. float.less (highest m ema) entry.1 ≡ false) ema
  highest-All m [] = tt
  highest-All m (entry ∷ ema) = elim (Bool-cases (float.less m entry.1)) [
    | inl e ↦
        highest_cons m entry.1 entry ema (rw e refl)
          (highest_above entry.1 entry.1 ema (o.less_irrefl entry.1)) (highest-All entry.1 ema)
    | inr e ↦
        highest_cons m m entry ema (rw e refl) (highest_above m entry.1 ema e) (highest-All m ema)
  ]

  -- After `step_done` no block's average is above `_max_ema`, and `_max_ema` is not below 1e-9, for a
  -- `<` on floats that is irreflexive and transitive.
  pub step_done_max :
      (t : HotnessTracker F)
      → All
          (λ entry. float.less (hotness_step_done t).max_ema entry.1 ≡ false)
          (hotness_step_done t).ema
        × (float.less (hotness_step_done t).max_ema tiny ≡ false)
  unfolding hotness_step_done
  step_done_max t =
      let ema = decayed (float.minus (float.decimal 1 0) t.ema_lambda) t.ema in
      (highest-All tiny ema, highest_above tiny tiny ema (o.less_irrefl tiny))

module _ {ℓ} {F : Type ℓ} ⦃float : Float F⦄ where
  -- The dicts have the same keys, and no access is later than the present step.
  pub record IsTracked (t : HotnessTracker F) : Type ℓ where
    pub accessed : (b : ℕ) → has_key b t.ema ≡ has_key b t.last_access
    pub counted : (b : ℕ) → has_key b t.ema ≡ has_key b t.access_count
    pub past : (b a : ℕ) → find b t.last_access ≡ some a → a ≤ t.step

  -- The trackers that calls lead to.
  pub data TrackerRun (tm : Option ℕ) (ema_lambda : F) : HotnessTracker F → Type ℓ where
    made : TrackerRun tm ema_lambda (new_tracker tm ema_lambda)
    reported :
        {t : HotnessTracker F} (bid : ℕ) (score : F)
        → TrackerRun tm ema_lambda t
        → TrackerRun tm ema_lambda (hotness_report t bid score)
    stepped :
        {t : HotnessTracker F}
        → TrackerRun tm ema_lambda t
        → TrackerRun tm ema_lambda (hotness_step_done t)
    removed :
        {t : HotnessTracker F} (bid : ℕ)
        → TrackerRun tm ema_lambda t
        → TrackerRun tm ema_lambda (hotness_remove t bid)

  has_key-decayed :
      (decay : F) (b : ℕ) (ema : List (ℕ × F)) → has_key b (decayed decay ema) ≡ has_key b ema
  has_key-decayed decay b [] = refl
  has_key-decayed decay b (entry ∷ ema) = ground (arith, has_key-decayed decay b ema)

  hotness_report-IsTracked :
      (t : HotnessTracker F) (bid : ℕ) (score : F)
      → IsTracked t
      → IsTracked (hotness_report t bid score)
  unfolding hotness_report
  hotness_report-IsTracked t bid score v = record {
    accessed = λ b.
        has_key-put bid b _ t.ema
        ∙ (ap (λ h. if bid == b then true else h) (v.accessed b)
            ∙ sym (has_key-put bid b _ t.last_access));
    counted = λ b.
        has_key-put bid b _ t.ema
        ∙ (ap (λ h. if bid == b then true else h) (v.counted b)
            ∙ sym (has_key-put bid b _ t.access_count));
    past = λ b a found. elim (find-put_cases bid b t.step a t.last_access found) [
      | inl (e, same) ↦ omega arith
      | inr (other, old) ↦ v.past b a old
    ];
  }

  hotness_step_done-IsTracked :
      (t : HotnessTracker F) → IsTracked t → IsTracked (hotness_step_done t)
  unfolding hotness_step_done
  hotness_step_done-IsTracked t v =
      let decay = float.minus (float.decimal 1 0) t.ema_lambda in
      record {
        accessed = λ b. has_key-decayed decay b t.ema ∙ v.accessed b;
        counted = λ b. has_key-decayed decay b t.ema ∙ v.counted b;
        past = λ b a found. omega (arith, v.past b a found);
      }

  hotness_remove-IsTracked :
      (t : HotnessTracker F) (bid : ℕ) → IsTracked t → IsTracked (hotness_remove t bid)
  unfolding hotness_remove
  hotness_remove-IsTracked t bid v = record {
    accessed = λ b.
        has_key-without bid b t.ema
        ∙ (ap (λ h. if bid == b then false else h) (v.accessed b)
            ∙ sym (has_key-without bid b t.last_access));
    counted = λ b.
        has_key-without bid b t.ema
        ∙ (ap (λ h. if bid == b then false else h) (v.counted b)
            ∙ sym (has_key-without bid b t.access_count));
    past = λ b a found. v.past b a (find_of_without bid b a t.last_access found);
  }

  -- Whatever blocks are reported and removed between the steps, in whatever order: a block has an average
  -- exactly if it has a last access and a count, and no last access lies after the present step.
  pub TrackerRun-IsTracked :
      (tm : Option ℕ) (ema_lambda : F) (t : HotnessTracker F)
      → TrackerRun tm ema_lambda t
      → IsTracked t
  unfolding new_tracker
  TrackerRun-IsTracked tm ema_lambda _ made = record {
    accessed = λ b. refl;
    counted = λ b. refl;
    past = λ b a e. cc;
  }
  TrackerRun-IsTracked tm ema_lambda _ (reported {t} bid score r) =
      hotness_report-IsTracked t bid score (TrackerRun-IsTracked tm ema_lambda t r)
  TrackerRun-IsTracked tm ema_lambda _ (stepped {t} r) =
      hotness_step_done-IsTracked t (TrackerRun-IsTracked tm ema_lambda t r)
  TrackerRun-IsTracked tm ema_lambda _ (removed {t} bid r) =
      hotness_remove-IsTracked t bid (TrackerRun-IsTracked tm ema_lambda t r)
