-- ===== src/AttentionHook/Modules/Wrapped.antt =====
-- What the hooks do to a call, and what installing them twice does to a module.
use orch_kv_cache.Prelude.{
  ℕ, ◌+◌, ◌≡◌, ◌≢◌, refl, ap, ◌∙◌, Bool, true, false, List, [], ◌∷◌, ◌++◌, arith, All,
  if◌then◌else◌, ok, Bool-cases, inl, inr,
}
use orch_kv_cache.Prelude.Float.{Float}
use orch_kv_cache.AttentionHook.{Collector, should_sample}
use orch_kv_cache.AttentionHook.Modules.{
  Forward, own, hooked, Module, HookManager, new_hook_manager, is_attention_module, wrap_module,
  wrap_modules, install, restore_all, uninstall, Kwargs, Output, run_forward,
}

module _ {ℓ} {F R : Type ℓ} ⦃float : Float F⦄ (mean : List F → F)
    (forward : Kwargs → Output F R) where
  -- On a step that is not sampled, a call of a module's `forward` returns what its own returns, for
  -- the same arguments, and leaves the collector alone, however often it is hooked.
  pub hooks_transparent :
      (f : Forward) (kwargs : Kwargs) (c : Collector F)
      → should_sample c ≡ false
      → run_forward mean forward f kwargs c ≡ ok (forward kwargs, c)
  unfolding run_forward
  hooks_transparent own kwargs c h = refl
  hooks_transparent (hooked original layer) kwargs c h =
      rw h (rw (hooks_transparent original kwargs c h) (rw h refl))

wrap_modules_lem :
    (s : HookManager × (ℕ → Forward)) (layer : ℕ) (m : Module) (modules : List Module) (b : Bool)
    → is_attention_module s.0.attn_module_name m.name ≡ b
    → wrap_modules s layer (m ∷ modules)
      ≡ wrap_modules
          (if b then wrap_module s m.id layer else s)
          (if b then layer + 1 else layer)
          modules
unfolding wrap_modules
wrap_modules_lem s layer m modules b e =
    ap
      (λ (c : Bool).
        wrap_modules (if c then wrap_module s m.id layer else s) (if c then layer + 1 else layer)
          modules)
      e

wrap_modules-name :
    (s : HookManager × (ℕ → Forward)) (layer : ℕ) (modules : List Module)
    → (wrap_modules s layer modules).0.attn_module_name ≡ s.0.attn_module_name
unfolding wrap_modules
wrap_modules-name s layer [] = refl
wrap_modules-name s layer (m ∷ modules) =
    elim (Bool-cases (is_attention_module s.0.attn_module_name m.name)) [
      | inl e ↦
          ap (λ g. g.0.attn_module_name) (wrap_modules_lem s layer m modules true e)
          ∙ wrap_modules-name (wrap_module s m.id layer) (layer + 1) modules
      | inr e ↦
          ap (λ g. g.0.attn_module_name) (wrap_modules_lem s layer m modules false e)
          ∙ wrap_modules-name s layer modules
    ]

-- A module that is not among `modules` keeps its `forward`.
wrap_modules-others :
    (s : HookManager × (ℕ → Forward)) (layer id : ℕ) (modules : List Module)
    → All (λ m. m.id ≢ id) modules
    → (wrap_modules s layer modules).1 id ≡ s.1 id
unfolding wrap_modules
wrap_modules-others s layer id [] h = refl
wrap_modules-others s layer id (m ∷ modules) (other, others) =
    elim (Bool-cases (is_attention_module s.0.attn_module_name m.name)) [
      | inl e ↦
          let kept : (wrap_module s m.id layer).1 id ≡ s.1 id = ground arith in
          ap (λ g. g.1 id) (wrap_modules_lem s layer m modules true e)
          ∙ (wrap_modules-others (wrap_module s m.id layer) (layer + 1) id modules others ∙ kept)
      | inr e ↦
          ap (λ g. g.1 id) (wrap_modules_lem s layer m modules false e)
          ∙ wrap_modules-others s layer id modules others
    ]

restore_all_lem :
    (forwards : ℕ → Forward) (originals : List (ℕ × Forward))
    → restore_all forwards originals ≡ forwards
unfolding restore_all
restore_all_lem forwards [] = refl
restore_all_lem forwards (entry ∷ originals) = restore_all_lem forwards originals

install_lem :
    (s : HookManager × (ℕ → Forward)) (modules : List Module)
    → s.0.installed ≡ false
    → install s modules
      ≡ (record (wrap_modules s 0 modules).0 { installed = true }, (wrap_modules s 0 modules).1)
unfolding install
install_lem s modules fresh =
    ap
      (λ b. if b then s else (
        record (wrap_modules s 0 modules).0 { installed = true },
        (wrap_modules s 0 modules).1,
      ))
      fresh

-- How many of the modules are attention modules.
unfoldable pub attention_count : List ℕ → List Module → ℕ
attention_count attn_module_name [] = 0
attention_count attn_module_name (m ∷ modules) =
    let rest = attention_count attn_module_name modules in
    if is_attention_module attn_module_name m.name then 1 + rest else rest

-- An attention module is hooked for the layer that is the number of those before it.
wrap_modules-hooks :
    (s : HookManager × (ℕ → Forward)) (layer : ℕ) (before after : List Module) (m : Module)
    → is_attention_module s.0.attn_module_name m.name ≡ true
    → All (λ n. n.id ≢ m.id) before
    → All (λ n. n.id ≢ m.id) after
    → (wrap_modules s layer (before ++ m ∷ after)).1 m.id
      ≡ hooked (s.1 m.id) (layer + attention_count s.0.attn_module_name before)
unfolding attention_count
wrap_modules-hooks s layer [] after m attn apart others =
    let w = wrap_module s m.id layer in
    let here : w.1 m.id ≡ hooked (s.1 m.id) (layer + 0) = ground arith in
    ap (λ g. g.1 m.id) (wrap_modules_lem s layer m after true attn)
    ∙ (wrap_modules-others w (layer + 1) m.id after others ∙ here)
wrap_modules-hooks s layer (n ∷ before) after m attn (other, apart) others =
    elim (Bool-cases (is_attention_module s.0.attn_module_name n.name)) [
      | inl e ↦
          let w = wrap_module s n.id layer in
          let kept : w.1 m.id ≡ s.1 m.id = ground arith in
          let count = attention_count s.0.attn_module_name before in
          let same : layer + 1 + count ≡ layer + (1 + count) = omega arith in
          rw e (
            ap (λ g. g.1 m.id) (wrap_modules_lem s layer n (before ++ m ∷ after) true e)
            ∙ (wrap_modules-hooks w (layer + 1) before after m attn apart others
                ∙ (ap (λ f. hooked f (layer + 1 + count)) kept ∙ ap (hooked (s.1 m.id)) same)))
      | inr e ↦ rw e (
          ap (λ g. g.1 m.id) (wrap_modules_lem s layer n (before ++ m ∷ after) false e)
          ∙ wrap_modules-hooks s layer before after m attn apart others)
    ]

-- What `install` makes of an attention module.
install-hooks :
    (s : HookManager × (ℕ → Forward)) (before after : List Module) (m : Module)
    → s.0.installed ≡ false
    → is_attention_module s.0.attn_module_name m.name ≡ true
    → All (λ n. n.id ≢ m.id) before
    → All (λ n. n.id ≢ m.id) after
    → ((install s (before ++ m ∷ after)).1 m.id
        ≡ hooked (s.1 m.id) (attention_count s.0.attn_module_name before))
      × ((install s (before ++ m ∷ after)).0.attn_module_name ≡ s.0.attn_module_name)
install-hooks s before after m fresh attn apart others =
    let done = install_lem s (before ++ m ∷ after) fresh in
    (
      ap (λ g. g.1 m.id) done
          ∙ (wrap_modules-hooks s 0 before after m attn apart others
              ∙ ap (hooked (s.1 m.id)) (omega arith)),
      ap (λ g. g.0.attn_module_name) done ∙ wrap_modules-name s 0 (before ++ m ∷ after),
    )

-- `uninstall` leaves the hooks in place: every attention module of a model, wherever it stands among the
-- model's modules, is still hooked after it, for the layer that is the number of the attention
-- modules before it, and hooked twice after another `install`. The module is the only one with
-- its `id`.
pub uninstall_keeps_hooks :
    (attn_module_name : List ℕ) (forwards : ℕ → Forward) (before after : List Module) (m : Module)
    → is_attention_module attn_module_name m.name ≡ true
    → All (λ n. n.id ≢ m.id) before
    → All (λ n. n.id ≢ m.id) after
    → ((uninstall (install (new_hook_manager attn_module_name, forwards) (before ++ m ∷ after))).1
          m.id
        ≡ hooked (forwards m.id) (attention_count attn_module_name before))
      × ((install
              (uninstall
                (install (new_hook_manager attn_module_name, forwards) (before ++ m ∷ after)))
              (before ++ m ∷ after)).1
            m.id
          ≡ hooked
              (hooked (forwards m.id) (attention_count attn_module_name before))
              (attention_count attn_module_name before))
unfolding uninstall new_hook_manager
uninstall_keeps_hooks attn_module_name forwards before after m attn apart others =
    let fresh : HookManager × (ℕ → Forward) = (new_hook_manager attn_module_name, forwards) in
    let layer = attention_count attn_module_name before in
    let s = install fresh (before ++ m ∷ after) in
    let (once, name) = install-hooks fresh before after m refl attn apart others in
    let kept : (uninstall s).1 m.id ≡ hooked (forwards m.id) layer =
      ap (λ g. g m.id) (restore_all_lem s.1 s.0.original_forwards) ∙ once in
    let attn' : is_attention_module (uninstall s).0.attn_module_name m.name ≡ true =
      ap (λ n. is_attention_module n m.name) name ∙ attn in
    let (twice, _) = install-hooks (uninstall s) before after m refl attn' apart others in
    let layer' : attention_count (uninstall s).0.attn_module_name before ≡ layer =
      ap (λ n. attention_count n before) name in
    (kept, twice ∙ (ap (hooked ((uninstall s).1 m.id)) layer' ∙ ap (λ f. hooked f layer) kept))
