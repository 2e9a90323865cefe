-- ===== src/Tests/AttentionHook.antt =====
-- Runs of the attention hooks.
use orch_kv_cache.Prelude.{ℕ, ◌≡◌, refl, true, false, Bool, none, List, [], ◌∷◌, ◌++◌, arith, ok}
use orch_kv_cache.AttentionHook.{Collector, new_collector, collector_step_done}
use orch_kv_cache.AttentionHook.Reports.{IsCounted, CollectorRun, CollectorRun-IsCounted}
use orch_kv_cache.AttentionHook.Modules.{
  own, hooked, Module, new_hook_manager, self_attn, install, uninstall, is_attention_module, Kwargs,
  Output, other_output, run_forward,
}
use orch_kv_cache.AttentionHook.Modules.Wrapped.{
  hooks_transparent, attention_count, uninstall_keeps_hooks,
}
use orch_kv_cache.Tests.BlockSwap.{thousandths}

-- Sampled at every second step; after one step it does not sample.
abbrev after_step : Collector ℕ
after_step = collector_step_done (new_collector 1 16 2 true)

CollectorRun-IsCounted_example : IsCounted after_step
CollectorRun-IsCounted_example =
    CollectorRun-IsCounted (λ values. 0) 1 16 2 true after_step
      (CollectorRun.stepped CollectorRun.made)

abbrev echo : Kwargs → Output ℕ Bool
echo kwargs = other_output kwargs.output_attentions

abbrev plain : Kwargs
plain = record { output_attentions = false; block_table = none }

hooks_transparent_example :
    run_forward (λ values. 0) echo (hooked (hooked own 0) 0) plain after_step
    ≡ ok (echo plain, after_step)
unfolding collector_step_done new_collector
hooks_transparent_example =
    hooks_transparent (λ values. 0) echo (hooked (hooked own 0) 0) plain after_step refl

-- A model without a name, as `named_modules` gives it first, and two attention modules in it.
abbrev model : Module
model = record { name = []; id = 5 }

abbrev first_attention : Module
first_attention = record { name = self_attn; id = 6 }

abbrev attention : Module
attention = record { name = self_attn; id = 7 }

attention-found : is_attention_module self_attn attention.name ≡ true
unfolding is_attention_module
attention-found = refl

-- The second attention module is hooked for layer 1.
layer_one : attention_count self_attn (model ∷ first_attention ∷ []) ≡ 1
unfolding attention_count is_attention_module
layer_one = refl

abbrev before : List Module
before = model ∷ first_attention ∷ []

uninstall_keeps_hooks_example :
    ((uninstall (install (new_hook_manager self_attn, λ i. own) (before ++ attention ∷ []))).1 7
      ≡ hooked own (attention_count self_attn before))
    × ((install
            (uninstall (install (new_hook_manager self_attn, λ i. own) (before ++ attention ∷ [])))
            (before ++ attention ∷ [])).1
          7
        ≡ hooked (hooked own (attention_count self_attn before)) (attention_count self_attn before))
uninstall_keeps_hooks_example =
    uninstall_keeps_hooks self_attn (λ i. own) before [] attention attention-found
      (omega arith, omega arith) tt
