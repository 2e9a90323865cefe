-- ===== src/AttentionHook/Modules.antt =====
-- `AttentionHookManager`: the `forward` of a model's attention modules, wrapped.
--
-- A module is known by its name, in code points (ASCII ones), and its `id`; which `forward` it has
-- stands in a store. What the model's own `forward` returns is a parameter, as a function of
-- the two keyword arguments that the hook sets or reads.
pub mod Wrapped
use orch_kv_cache.Prelude.{
  ℕ, ◌+◌, ◌==◌, Bool, true, false, ◌&&◌, ◌||◌, Option, none, some, List, [], ◌∷◌, map,
  if◌then◌else◌, leb, Result, ok, ◌>>=◌,
}
use orch_kv_cache.Prelude.Dict.{put, nat_key}
use orch_kv_cache.Prelude.Heap.{update}
use orch_kv_cache.Prelude.Float.{Float}
use orch_kv_cache.AttentionHook.{
  Collector, Candidate, four_dims, other_dims, no_tensor, TableRow, should_sample, collect,
}

-- `hooked_forward` around another one, for a layer.
pub data Forward : Type 0 where
  own : Forward
  hooked : Forward → ℕ → Forward

pub record Module : Type 0 where
  pub name : List ℕ
  pub id : ℕ

pub record HookManager : Type 0 where
  pub attn_module_name : List ℕ
  pub original_forwards : List (ℕ × Forward)
  pub installed : Bool
  pub layer_map : List (ℕ × ℕ)

-- `__init__`.
unfoldable pub new_hook_manager : List ℕ → HookManager
new_hook_manager attn_module_name = record {
  attn_module_name = attn_module_name;
  original_forwards = [];
  installed = false;
  layer_map = [];
}

-- `name.lower()`.
abbrev pub lower : List ℕ → List ℕ
lower cs = map (λ c. if leb b'A' c && leb c b'Z' then c + 32 else c) cs

abbrev pub starts_with : List ℕ → List ℕ → Bool
starts_with [] s = true
starts_with (c ∷ cs) [] = false
starts_with (c ∷ cs) (d ∷ s) = c == d && starts_with cs s

-- `sub in s`.
abbrev pub occurs_in : List ℕ → List ℕ → Bool
occurs_in sub [] = starts_with sub []
occurs_in sub (c ∷ s) = starts_with sub (c ∷ s) || occurs_in sub s

-- `"self_attn"`.
abbrev pub self_attn : List ℕ
self_attn = b's' ∷ b'e' ∷ b'l' ∷ b'f' ∷ b'_' ∷ b'a' ∷ b't' ∷ b't' ∷ b'n' ∷ []

-- `_is_attention_module`.
unfoldable pub is_attention_module : List ℕ → List ℕ → Bool
is_attention_module attn_module_name name =
    occurs_in attn_module_name (lower name) && occurs_in self_attn (lower name)

-- `_wrap_module`, and the entry of `_layer_map`.
abbrev pub wrap_module : HookManager × (ℕ → Forward) → ℕ → ℕ → HookManager × (ℕ → Forward)
wrap_module (m, forwards) id layer = (
  record m {
    original_forwards = put id (forwards id) m.original_forwards;
    layer_map = put id layer m.layer_map;
  },
  update forwards id (hooked (forwards id) layer),
)

-- The loop of `install`, from the layer `layer` on.
unfoldable pub wrap_modules :
    HookManager × (ℕ → Forward) → ℕ → List Module → HookManager × (ℕ → Forward)
wrap_modules s layer [] = s
wrap_modules s layer (module' ∷ modules) =
    let found = is_attention_module s.0.attn_module_name module'.name in
    wrap_modules (if found then wrap_module s module'.id layer else s)
      (if found then layer + 1 else layer) modules

-- `install`.
unfoldable pub install : HookManager × (ℕ → Forward) → List Module → HookManager × (ℕ → Forward)
install s modules =
    if s.0.installed
    then s
    else (record (wrap_modules s 0 modules).0 { installed = true }, (wrap_modules s 0 modules).1)

-- `_get_all_modules`.
abbrev pub all_modules : List ℕ
all_modules = []

-- The inner loop of `uninstall`.
abbrev pub restore_in : (ℕ → Forward) → ℕ → Forward → List ℕ → ℕ → Forward
restore_in forwards id original [] = forwards
restore_in forwards id original (i ∷ ids) =
    if i == id then update forwards id original else restore_in forwards id original ids

unfoldable pub restore_all : (ℕ → Forward) → List (ℕ × Forward) → ℕ → Forward
restore_all forwards [] = forwards
restore_all forwards (entry ∷ originals) =
    restore_all (restore_in forwards entry.0 entry.1 all_modules) originals

-- `uninstall`.
unfoldable pub uninstall : HookManager × (ℕ → Forward) → HookManager × (ℕ → Forward)
uninstall s = (
  record s.0 { original_forwards = []; layer_map = []; installed = false },
  restore_all s.1 s.0.original_forwards,
)

pub record Kwargs : Type 0 where
  pub output_attentions : Bool
  pub block_table : Option TableRow

-- What a `forward` returns: a tuple of at least two, a dict with what it has under the three names, or
-- anything else; `R` is the rest of it.
pub data Output {ℓ} (F R : Type ℓ) : Type ℓ where
  tuple_output : R → Candidate F → Output F R
  dict_output : R → (attn_weights attention_weights attentions : Candidate F) → Output F R
  other_output : R → Output F R

module _ {ℓ} {F : Type ℓ} where
  abbrev pub first_tensor : Candidate F → Option (Candidate F) → Option (Candidate F)
  first_tensor no_tensor rest = rest
  first_tensor c rest = some c

  abbrev pub four_only : Candidate F → Option (Candidate F)
  four_only (four_dims w) = some (four_dims w)
  four_only _ = none

module _ {ℓ} {F R : Type ℓ} where
  -- `_extract_attn_weights`.
  unfoldable pub extract_attn_weights : Output F R → Option (Candidate F)
  extract_attn_weights (tuple_output r c) = four_only c
  extract_attn_weights (dict_output r a b c) = first_tensor a (first_tensor b (first_tensor c none))
  extract_attn_weights (other_output r) = none

module _ {ℓ} {F R : Type ℓ} ⦃float : Float F⦄ (mean : List F → F)
    (forward : Kwargs → Output F R) where
  abbrev pub collect_from : Collector F → ℕ → Kwargs → Option (Candidate F) → Result (Collector F)
  collect_from c layer kwargs none = ok c
  collect_from c layer kwargs (some w) = collect mean c layer w kwargs.block_table none

  -- A call of a module's `forward`.
  unfoldable pub run_forward : Forward → Kwargs → Collector F → Result (Output F R × Collector F)
  run_forward own kwargs c = ok (forward kwargs, c)
  run_forward (hooked original layer) kwargs c = do
    let asked = if should_sample c then record kwargs { output_attentions = true } else kwargs
    (result, c') ← run_forward original asked c
    c'' ←
        (if should_sample c'
          then collect_from c' layer asked (extract_attn_weights result)
          else ok c')
    ok (result, c'')
