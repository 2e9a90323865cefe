-- ===== src/Fast/Reports.antt =====
-- The reports of a `FastKVCacheManager` leave its buffers and its queue alone.
use orch_kv_cache.Prelude.{
  ℕ, zero, suc, ◌+◌, ◌*◌, ◌/◌, ◌-◌, ◌<◌, ◌==◌, ◌&&◌, not, ◌≡◌, refl, sym, ap, ◌∙◌, arith, ok,
  Bool-cases, inl, inr, pos→nonzero, leb,
}
use orch_kv_cache.Fifo.Write.{fifo_step_done}
use orch_kv_cache.Fast.{
  FastManager, register_blocks, fast_report_blocks, fast_report_attention, qk_blocks,
  report_qk_norm, fast_step_done, fast_has_handle,
}

module _ {ℓ} {T : Type ℓ} where
  pub register_blocks-base :
      (n : ℕ) (m : FastManager T) (bid : ℕ) → (register_blocks n m bid).base ≡ m.base
  unfolding register_blocks
  register_blocks-base zero m bid = refl
  register_blocks-base (suc n) m bid = register_blocks-base n _ (bid + 1)

  pub fast_report_blocks-base :
      (n kv_len : ℕ) (m : FastManager T) (bid : ℕ)
      → (fast_report_blocks n kv_len m bid).base ≡ m.base
  unfolding fast_report_blocks
  fast_report_blocks-base zero kv_len m bid = refl
  fast_report_blocks-base (suc n) kv_len m bid =
      elim (Bool-cases (leb kv_len (bid * m.block_size))) [
        | inl e ↦ rw (e, fast_report_blocks) refl
        | inr e ↦ rw (e, fast_report_blocks) (fast_report_blocks-base n kv_len _ (bid + 1))
      ]

  qk_blocks-base : (n : ℕ) (m : FastManager T) (bid : ℕ) → (qk_blocks n m bid).base ≡ m.base
  unfolding qk_blocks
  qk_blocks-base zero m bid = refl
  qk_blocks-base (suc n) m bid = qk_blocks-base n _ (bid + 1)

  pub report-base :
      (m n : FastManager T) (kv_len : ℕ)
      → 0 < m.block_size
      → fast_report_attention m kv_len ≡ ok n
      → n.base ≡ m.base
  unfolding fast_report_attention
  report-base m n kv_len positive e =
      let nonzero = pos→nonzero m.block_size positive in
      let blocks = (m.total_tokens + m.block_size - 1) / m.block_size in
      elim (Bool-cases (fast_has_handle m)) [
        | inl h ↦
            let same : fast_report_blocks blocks kv_len m 0 ≡ n = ground arith in
            sym (ap (λ k. k.base) same) ∙ fast_report_blocks-base blocks kv_len m 0
        | inr h ↦ let same : m ≡ n = ground arith in sym (ap (λ k. k.base) same)
      ]

  pub qk-base :
      (m n : FastManager T) (layer : ℕ)
      → 0 < m.block_size
      → report_qk_norm m layer ≡ ok n
      → n.base ≡ m.base
  unfolding report_qk_norm
  qk-base m n layer positive e =
      let nonzero = pos→nonzero m.block_size positive in
      let blocks = (m.total_tokens + m.block_size - 1) / m.block_size in
      elim (Bool-cases (fast_has_handle m && not (m.total_tokens == 0))) [
        | inl h ↦
            let same : qk_blocks blocks m 0 ≡ n = ground arith in
            sym (ap (λ k. k.base) same) ∙ qk_blocks-base blocks m 0
        | inr h ↦ let same : m ≡ n = ground arith in sym (ap (λ k. k.base) same)
      ]

  pub fast_step_done-base : (m : FastManager T) → (fast_step_done m).base ≡ fifo_step_done m.base
  unfolding fast_step_done fifo_step_done
  fast_step_done-base m = refl
