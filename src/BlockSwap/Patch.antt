-- ===== src/BlockSwap/Patch.antt =====
-- `apply_scheduler_patch` of python/orchkv/vllm_integration/block_level_swap.py, which edits a file of vLLM.
--
-- A text is the list of its code points. Of the file system three files matter: the scheduler's, and the two
-- copies beside it; `none` is a file that is not there.
pub mod Occurrences
pub mod Applied
use Prim.Native.Char.{code}
use Prim.Native.String.{String}
use orch_kv_cache.Prelude.{
  ℕ, zero, suc, ◌+◌, ◌-◌, ◌==◌, Bool, true, false, not, Option, none, some, List, [], ◌∷◌, ◌++◌,
  Result, ok, err, file_not_found, ◌>>=◌, if◌then◌else◌, ok_or, length, drop, is_some,
}

abbrev pub Text : Type 0
Text = List ℕ

abbrev pub codes : String → Text
codes String.[] = []
codes (String.◌∷◌ c s) = code c ∷ codes s

-- `_PATCH_MARKER`.
abbrev pub patch_marker : Text
patch_marker = codes "# ORCHKV_BLOCK_SCORE_v5"

-- `old_marker`.
abbrev pub old_marker : Text
old_marker = codes "# ORCHKV_BLOCK_SCORE_v4"

-- `anchor1`.
abbrev pub anchor1 : Text
anchor1 =
    codes "        # Did we schedule a prompt at previous step?\n"
    ++ codes "        self.prev_prompt = False"

-- `patch1` is `anchor1`, this, the marker, and the code that makes a scorer.
abbrev pub marker_indent : Text
marker_indent = codes "\n" ++ codes "        "

-- That code.
abbrev pub init_code : Text
init_code =
    codes "\n"
    ++ codes "        self._orchkv_block_scorer = None\n"
    ++ codes "        _bs_ver = os.environ.get('ORCHKV_BLOCK_SCORE', '0')\n"
    ++ codes "        _swap_on = os.environ.get('ORCHKV_SWAP', '0') == '1'\n"
    ++ codes "        if _bs_ver == '0' and _swap_on:\n"
    ++ codes "            _bs_ver = '4'\n"
    ++ codes "        if _bs_ver in ('1', '2', '3', '4'):\n"
    ++ codes "            try:\n"
    ++ codes "                from orchkv.vllm_integration.block_level_swap import create_scorer\n"
    ++ codes "                self._orchkv_block_scorer = create_scorer(\n"
    ++ codes "                    version=int(_bs_ver),\n"
    ++ codes "                    block_manager=self.block_manager)\n"
    ++ codes "                logger.info(\n"
    ++ codes "                    'OrchKvCache scoring v%s ENABLED', _bs_ver)\n"
    ++ codes "            except Exception as _e:\n"
    ++ codes "                logger.warning(\n"
    ++ codes "                    'OrchKvCache scoring init failed: %s', _e)"

abbrev pub patch1 : Text
patch1 = anchor1 ++ (marker_indent ++ (patch_marker ++ init_code))

-- The lines with which `anchor2` and `patch2` begin.
abbrev pub preempt_head : Text
preempt_head =
    codes "                if running_queue:\n"
    ++ codes "                    # Preempt the lowest-priority sequence group.\n"

-- The rest of `anchor2`.
abbrev pub pop_code : Text
pop_code = codes "                    victim_seq_group = running_queue.pop()"

-- The rest of `patch2`.
abbrev pub victim_code : Text
victim_code =
    codes "                    _bscorer = getattr(\n"
    ++ codes "                        self, '_orchkv_block_scorer', None)\n"
    ++ codes "                    if _bscorer is not None:\n"
    ++ codes "                        _vidx = _bscorer.select_victim(\n"
    ++ codes "                            running_queue)\n"
    ++ codes "                        victim_seq_group = running_queue[_vidx]\n"
    ++ codes "                        del running_queue[_vidx]\n"
    ++ codes "                    else:\n"
    ++ codes "                        victim_seq_group = running_queue.pop()"

abbrev pub anchor2 : Text
anchor2 = preempt_head ++ pop_code

abbrev pub patch2 : Text
patch2 = preempt_head ++ victim_code

abbrev pub begins_with : Text → Text → Bool
begins_with [] text = true
begins_with (c ∷ pattern) [] = false
begins_with (c ∷ pattern) (d ∷ text) = if c == d then begins_with pattern text else false

-- `pattern in text`.
unfoldable pub occurs : Text → Text → Bool
occurs pattern [] = begins_with pattern []
occurs pattern (c ∷ text) =
    let rest = occurs pattern text in if begins_with pattern (c ∷ text) then true else rest

-- `text.replace(pattern, new, 1)`.
unfoldable pub replace_first : Text → Text → Text → Text
replace_first pattern new [] = if begins_with pattern [] then new else []
replace_first pattern new (c ∷ text) =
    let rest = c ∷ replace_first pattern new text in
    if begins_with pattern (c ∷ text) then new ++ drop (length pattern) (c ∷ text) else rest

-- `text.replace(pattern, "")` of a pattern that is not empty: `skip` characters of one are still to go.
unfoldable pub remove_all : Text → ℕ → Text → Text
remove_all pattern skip [] = []
remove_all pattern (suc skip) (c ∷ text) = remove_all pattern skip text
remove_all pattern zero (c ∷ text) = elim (begins_with pattern (c ∷ text)) [
  | true ↦ remove_all pattern (length pattern - 1) text
  | false ↦ c ∷ remove_all pattern zero text
]

-- The file at `scheduler_path`, and those with `.pre_v4.bak` and `.pre_blockscore.bak` behind it.
pub record PatchFiles : Type 0 where
  pub scheduler : Option Text
  pub pre_v4 : Option Text
  pub pre_blockscore : Option Text

-- What is patched of a file with the old marker: the copy that was made, or the text without the marker.
abbrev pub patch_source : Option Text → Text → Text
patch_source none content = remove_all old_marker 0 content
patch_source (some original) content = original

-- The two replacements, and the write.
unfoldable pub patch_content : PatchFiles → Text → Text → PatchFiles × Bool
patch_content f present content =
    if not (occurs anchor1 content)
    then (f, false)
    else let content' = replace_first anchor1 patch1 content in
      if not (occurs anchor2 content') then (f, false) else (
        record f {
          scheduler = some (replace_first anchor2 patch2 content');
          pre_blockscore = some present;
        },
        true,
      )

-- The second half of the function: `present` is what the file has, `content` what is to be patched.
unfoldable pub patch_unmarked : PatchFiles → Text → Text → PatchFiles × Bool
unfolding patch_content
patch_unmarked f present content =
    if occurs patch_marker content then (f, true) else patch_content f present content

-- `apply_scheduler_patch`.
unfoldable pub apply_scheduler_patch : PatchFiles → Result (PatchFiles × Bool)
unfolding patch_unmarked
apply_scheduler_patch f = do
  content ← ok_or file_not_found f.scheduler
  ok (
      if occurs old_marker content
      then patch_unmarked (record f { pre_v4 = some content }) content
          (patch_source f.pre_blockscore content)
      else patch_unmarked f content content)
