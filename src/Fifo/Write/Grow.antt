-- ===== src/Fifo/Write/Grow.antt =====
-- `_grow_buffers` keeps the tokens and the copies true.
use orch_kv_cache.Prelude.{
  ℕ, zero, suc, ◌+◌, ◌-◌, ◌*◌, ◌/◌, ◌≤◌, ◌≡◌, refl, sym, ap, ◌∙◌, List, [], ◌∷◌, ◌++◌, arith,
  length, take, replicate, min, tabulate-agree, length-append, length-take, length-replicate,
}
use orch_kv_cache.Fifo.{FifoManager, rows}
use orch_kv_cache.Fifo.Schedule.{IsRunning}
use orch_kv_cache.Fifo.Write.{grow_buffers, grown_buf}
use orch_kv_cache.Fifo.Write.Append.{take-drop-take, slice-agree}

module _ {ℓ} {A : Type ℓ} where
  pub take-append_le : (n : ℕ) (xs ys : List A) → n ≤ length xs → take n (xs ++ ys) ≡ take n xs
  take-append_le zero xs ys h = refl
  take-append_le (suc n) [] ys h = absurd (omega arith)
  take-append_le (suc n) (x ∷ xs) ys h = ap (◌∷◌ x) (take-append_le n xs ys (omega arith))

  length-grown_buf : (z : A) (size : ℕ) (buf : List A) → length (grown_buf z size buf) ≡ size
  length-grown_buf z size buf =
      let n = min (length buf) size in
      omega (
        arith,
        length-append (take n buf) (replicate (size - n) z),
        length-take n buf,
        length-replicate (size - n) z,
      )

  take-grown_buf :
      (z : A) (size pos : ℕ) (buf : List A)
      → pos ≤ length buf
      → pos ≤ size
      → take pos (grown_buf z size buf) ≡ take pos buf
  take-grown_buf z size pos buf h h' =
      let n = min (length buf) size in
      take-append_le pos (take n buf) (replicate (size - n) z) (omega (arith, length-take n buf))
      ∙ take-drop-take 0 pos n buf (omega arith)

module _ {ℓ} {T : Type ℓ} where
  -- Every buffer has `max_seq_len` slots.
  abbrev pub IsSized : FifoManager T → Type 0
  IsSized m = (li : ℕ) → length (m.bufs li) ≡ m.max_seq_len

  pub grow_buffers-IsSized : (m : FifoManager T) (n : ℕ) → IsSized (grow_buffers m n)
  unfolding grow_buffers
  grow_buffers-IsSized m n = λ li. length-grown_buf m.zeros ((n + 255) / 256 * 256) (m.bufs li)

  pub grow_buffers-max : (m : FifoManager T) (n : ℕ) → n ≤ (grow_buffers m n).max_seq_len
  unfolding grow_buffers
  grow_buffers-max m n = omega arith

  pub grow_buffers-prefix :
      (m : FifoManager T) (n li : ℕ)
      → IsRunning m
      → m.total_tokens ≤ n
      → take m.total_tokens ((grow_buffers m n).bufs li) ≡ take m.total_tokens (m.bufs li)
  unfolding grow_buffers
  grow_buffers-prefix m n li v h =
      take-grown_buf m.zeros ((n + 255) / 256 * 256) m.total_tokens (m.bufs li) (v.sound.filled li)
        (omega arith)

  pub grow_buffers-IsRunning :
      (m : FifoManager T) (n : ℕ) → IsRunning m → m.total_tokens ≤ n → IsRunning (grow_buffers m n)
  unfolding grow_buffers
  grow_buffers-IsRunning m n v h = record {
    sound = record {
      faithful = λ l s e d held.
          let (starts, ends, _) = v.sound.copies l s e d held in
          v.sound.faithful l s e d held
          ∙ slice-agree s e m.total_tokens (m.bufs l) _ starts ends
              (sym (grow_buffers-prefix m n l v h));
      positive = v.sound.positive;
      filled = λ li. omega (arith, length-grown_buf m.zeros ((n + 255) / 256 * 256) (m.bufs li));
      copies = v.sound.copies;
    };
    queued = v.queued;
    few = v.few;
  }

  pub grow_buffers-rows :
      (m : FifoManager T) (n : ℕ)
      → IsRunning m
      → m.total_tokens ≤ n
      → rows (grow_buffers m n) ≡ rows m
  unfolding grow_buffers
  grow_buffers-rows m n v h = tabulate-agree _ _ m.n_layers 0 (λ li. grow_buffers-prefix m n li v h)

  pub grow_buffers-total :
      (m : FifoManager T) (n : ℕ) → m.total_tokens ≤ n → (grow_buffers m n).total_tokens ≤ n
  unfolding grow_buffers
  grow_buffers-total m n h = h
