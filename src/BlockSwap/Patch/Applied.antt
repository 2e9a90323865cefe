-- ===== src/BlockSwap/Patch/Applied.antt =====
-- What `apply_scheduler_patch` leaves in the files, and what a second call does.
use orch_kv_cache.Prelude.{
  ◌≡◌, refl, sym, ap, ◌∙◌, ◌⊎◌, inl, inr, arith, Bool, true, false, some, [], ◌++◌, ok, Bool-cases,
}
use mathlib.Core.List.{append_assoc, append-nil}
use mathlib.Core.Path.{subst}
use orch_kv_cache.BlockSwap.Patch.{
  Text, patch_marker, old_marker, anchor1, marker_indent, init_code, patch1, preempt_head, pop_code,
  victim_code, anchor2, patch2, occurs, replace_first, PatchFiles, patch_source, patch_content,
  patch_unmarked, apply_scheduler_patch,
}
use orch_kv_cache.BlockSwap.Patch.Occurrences.{
  is_clear, differ, occurs-replace_first, occurs-replace_first_new,
}

-- The markers begin nowhere in the texts of the patches, but for the marker that is put in.
texts_clear :
    (is_clear old_marker anchor1 ≡ true)
    × (is_clear old_marker (marker_indent ++ (patch_marker ++ init_code)) ≡ true)
    × (is_clear old_marker preempt_head ≡ true)
    × (is_clear old_marker pop_code ≡ true)
    × (is_clear old_marker victim_code ≡ true)
    × (is_clear patch_marker preempt_head ≡ true)
    × (is_clear patch_marker pop_code ≡ true)
    × (is_clear patch_marker victim_code ≡ true)
unfolding is_clear differ
texts_clear = (refl, refl, refl, refl, refl, refl, refl, refl)

nothing_clear : is_clear old_marker [] ≡ true
unfolding is_clear
nothing_clear = refl

-- What the two replacements make of a text with the anchors.
unfoldable pub patched : Text → Text
patched content = replace_first anchor2 patch2 (replace_first anchor1 patch1 content)

module _ (content : Text) (first : occurs anchor1 content ≡ true) where
  patch1-old : occurs old_marker (replace_first anchor1 patch1 content) ≡ occurs old_marker content
  patch1-old =
      occurs-replace_first old_marker anchor1 [] (marker_indent ++ (patch_marker ++ init_code))
        content _ _ (sym (append-nil anchor1)) (omega arith) texts_clear.0 nothing_clear
        texts_clear.1 first

  patch1-marker : occurs patch_marker (replace_first anchor1 patch1 content) ≡ true
  patch1-marker =
      let split : patch1 ≡ (anchor1 ++ marker_indent) ++ (patch_marker ++ init_code) =
        sym (append_assoc anchor1 marker_indent (patch_marker ++ init_code)) in
      ap (λ new. occurs patch_marker (replace_first anchor1 new content)) split
      ∙ occurs-replace_first_new _ _ (anchor1 ++ marker_indent) init_code content _ _ first

  module _ (second : occurs anchor2 (replace_first anchor1 patch1 content) ≡ true) where
    patched-old : occurs old_marker (patched content) ≡ occurs old_marker content
    unfolding patched
    patched-old =
        occurs-replace_first old_marker preempt_head pop_code victim_code
          (replace_first anchor1 patch1 content) _ _ refl (omega arith) texts_clear.2 texts_clear.3
          texts_clear.4 second
        ∙ patch1-old

    patched-marker : occurs patch_marker (patched content) ≡ true
    unfolding patched
    patched-marker =
        occurs-replace_first patch_marker preempt_head pop_code victim_code
          (replace_first anchor1 patch1 content) _ _ refl (omega arith) texts_clear.5 texts_clear.6
          texts_clear.7 second
        ∙ patch1-marker

-- The files after both replacements are written.
abbrev rewritten : PatchFiles → Text → Text → PatchFiles
rewritten f present content = record f {
  scheduler = some (patched content);
  pre_blockscore = some present;
}

-- Either an anchor is missing and nothing is written, or both are there and the file is.
patch_content-cases :
    (f : PatchFiles) (present content : Text)
    → (patch_content f present content ≡ (f, false))
      ⊎ ((patch_content f present content ≡ (rewritten f present content, true))
          × (occurs patch_marker (patched content) ≡ true)
          × (occurs old_marker (patched content) ≡ occurs old_marker content))
unfolding patch_content
patch_content-cases f present content = elim (Bool-cases (occurs anchor1 content)) [
  | inl first ↦ elim (Bool-cases (occurs anchor2 (replace_first anchor1 patch1 content))) [
    | inl second ↦ inr (
      rw (first, second) (unfold patched in refl),
      patched-marker content first second,
      patched-old content first second,
    )
    | inr absent ↦ inl (rw (first, absent) refl)
  ]
  | inr absent ↦ inl (rw absent refl)
]

patch_unmarked-marked :
    (f : PatchFiles) (present content : Text)
    → occurs patch_marker content ≡ true
    → patch_unmarked f present content ≡ (f, true)
unfolding patch_unmarked
patch_unmarked-marked f present content h = rw h refl

patch_unmarked-unmarked :
    (f : PatchFiles) (present content : Text)
    → occurs patch_marker content ≡ false
    → patch_unmarked f present content ≡ patch_content f present content
unfolding patch_unmarked
patch_unmarked-unmarked f present content h = rw h refl

apply-current :
    (f : PatchFiles) (content : Text)
    → f.scheduler ≡ some content
    → occurs old_marker content ≡ false
    → apply_scheduler_patch f ≡ ok (patch_unmarked f content content)
unfolding apply_scheduler_patch
apply-current f content e h = rw (e, h) refl

-- Of a scheduler without the old marker: if a call returns `True`, another call after it returns
-- `True` too, and changes no file.
pub apply_scheduler_patch-IsIdempotent :
    (f g : PatchFiles) (content : Text)
    → f.scheduler ≡ some content
    → occurs old_marker content ≡ false
    → apply_scheduler_patch f ≡ ok (g, true)
    → apply_scheduler_patch g ≡ ok (g, true)
apply_scheduler_patch-IsIdempotent f g content e h done =
    let ran = sym (apply-current f content e h) ∙ done in
    elim (Bool-cases (occurs patch_marker content)) [
      | inl marked ↦
          let same : ok (f, true) ≡ ok (g, true) =
            ap ok (sym (patch_unmarked-marked f content content marked)) ∙ ran in
          let eq : f ≡ g = cc same in
          subst (λ k. apply_scheduler_patch k ≡ ok (k, true)) eq
            (apply-current f content e h ∙ ap ok (patch_unmarked-marked f content content marked))
      | inr unmarked ↦
          let plain : ok (patch_content f content content) ≡ ok (g, true) =
            ap ok (sym (patch_unmarked-unmarked f content content unmarked)) ∙ ran in
          elim (patch_content-cases f content content) [
            | inl failed ↦ absurd (cc (failed, plain))
            | inr (wrote, marked, old) ↦
                let eq : rewritten f content content ≡ g = cc (wrote, plain) in
                let k = rewritten f content content in
                let again : apply_scheduler_patch k ≡ ok (k, true) =
                  apply-current k (patched content) refl (old ∙ h)
                  ∙ ap ok (patch_unmarked-marked k (patched content) (patched content) marked) in
                subst (λ k'. apply_scheduler_patch k' ≡ ok (k', true)) eq again
          ]
    ]

-- What a call leaves beside the copy of a file with the old marker: nothing is changed, or it
-- returns `True`, the scheduler has the marker, and the backup is the file as it was.
abbrev pub PatchOutcome : PatchFiles → PatchFiles × Bool → Type 0
PatchOutcome f r =
    ((r.0.scheduler ≡ f.scheduler) × (r.0.pre_blockscore ≡ f.pre_blockscore))
    ⊎ ((r.1 ≡ true)
        × (r.0.pre_blockscore ≡ f.scheduler)
        × ((content : Text) × (r.0.scheduler ≡ some content)
            × (occurs patch_marker content ≡ true)))

patch_unmarked-Outcome :
    (f : PatchFiles) (present content : Text)
    → f.scheduler ≡ some present
    → PatchOutcome f (patch_unmarked f present content)
patch_unmarked-Outcome f present content e = elim (Bool-cases (occurs patch_marker content)) [
  | inl marked ↦
      subst (PatchOutcome f) (sym (patch_unmarked-marked f present content marked))
        (inl (refl, refl))
  | inr unmarked ↦
      subst (PatchOutcome f) (sym (patch_unmarked-unmarked f present content unmarked))
        (elim (patch_content-cases f present content) [
          | inl failed ↦ subst (PatchOutcome f) (sym failed) (inl (refl, refl))
          | inr (wrote, marked, old) ↦
              subst (PatchOutcome f) (sym wrote)
                (inr (refl, sym e, (patched content, refl, marked)))
        ])
]

-- On a scheduler that is there, a call does not raise. It either leaves the scheduler and the backup as
-- they are, or returns `True`, with the marker in the scheduler and the backup of what the
-- scheduler was before the call, also where it had been patched in an earlier version.
pub apply_scheduler_patch-Outcome :
    (f : PatchFiles) (content : Text)
    → f.scheduler ≡ some content
    → (r : PatchFiles × Bool) × (apply_scheduler_patch f ≡ ok r) × PatchOutcome f r
unfolding apply_scheduler_patch
apply_scheduler_patch-Outcome f content e = elim (Bool-cases (occurs old_marker content)) [
  | inl old ↦
      let k = record f { pre_v4 = some content } in
      (
        patch_unmarked k content (patch_source f.pre_blockscore content),
        rw (e, old) refl,
        patch_unmarked-Outcome k content (patch_source f.pre_blockscore content) e,
      )
  | inr new ↦ (
    patch_unmarked f content content,
    rw (e, new) refl,
    patch_unmarked-Outcome f content content e,
  )
]
