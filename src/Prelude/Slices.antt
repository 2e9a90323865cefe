-- ===== src/Prelude/Slices.antt =====
-- Slices of tensors along their token axis, as torch reads and writes them.
use orch_kv_cache.Prelude.{
  ℕ, zero, suc, ◌+◌, ◌-◌, ◌<◌, ◌==◌, ◌≡◌, refl, ap, List, [], ◌∷◌, ◌++◌, arith, Result, ok,
  runtime_error, index_error, ◌>>◌, guard, length, take, drop, replicate, set, ltb, get_last?,
  ok_or, ==_iff, length-take, length-replicate, take-append-drop, drop-append_length,
  take-append_length, drop-append_more, drop-replicate, min,
}
use mathlib.Core.List.{append_assoc}

module _ {ℓ} {T : Type ℓ} where
  -- `xs[from:upto]`.
  abbrev pub slice : ℕ → ℕ → List T → List T
  slice from upto xs = take (upto - from) (drop from xs)

  -- `out[pos:pos + n] = xs`: the slice is cut at the end of `out`, and torch refuses another length.
  unfoldable pub assign : List T → ℕ → ℕ → List T → Result (List T)
  assign out pos n xs = do
    guard (length (take n (drop pos out)) == length xs) runtime_error
    ok (take pos out ++ (xs ++ drop (pos + length xs) out))

  -- `out[pos] = x`.
  unfoldable pub assign_slot : List T → ℕ → T → Result (List T)
  assign_slot out pos x = do guard (ltb pos (length out)) index_error; ok (set out pos x)

  -- `xs[-1]`.
  abbrev pub last_slot : List T → Result T
  last_slot xs = ok_or index_error (get_last? xs)

  -- A write of `xs` behind `done`, into a buffer that is still zero from there on.
  pub assign_next :
      (done xs : List T) (n k t : ℕ) (z : T)
      → length xs ≡ n
      → t ≡ n + k
      → assign (done ++ replicate t z) (length done) n xs ≡ ok ((done ++ xs) ++ replicate k z)
  unfolding assign
  assign_next done xs n k t z hx ht =
      let room : length (take n (replicate t z)) ≡ length xs =
        omega (arith, length-take n (replicate t z), length-replicate t z) in
      rw (drop-append_length, (==_iff _ _).1 room)
        (rw
          (
            take-append_length,
            drop-append_more done (replicate t z) (length xs) _ refl,
            drop-replicate (length xs) k t z (omega arith),
            append_assoc,
          )
          refl)

  -- The same at the start of a fresh buffer.
  pub assign_first :
      (xs : List T) (n t : ℕ) (z : T)
      → length xs ≡ n
      → n < t + 1
      → assign (replicate t z) 0 n xs ≡ ok (xs ++ replicate (t - n) z)
  assign_first xs n t z hx ht = assign_next [] xs n (t - n) t z hx (omega arith)

  pub take_add : (a b c : ℕ) (xs : List T) → c ≡ a + b → take c xs ≡ take a xs ++ take b (drop a xs)
  take_add zero b c xs e = let e' : c ≡ b = omega arith in rw e'
  take_add (suc a) b zero xs e = absurd (omega arith)
  take_add (suc a) zero (suc c) [] e = refl
  take_add (suc a) (suc b) (suc c) [] e = refl
  take_add (suc a) b (suc c) (x ∷ xs) e = ap (◌∷◌ x) (take_add a b c xs (omega arith))

  pub take-min : (n k : ℕ) (xs : List T) → k ≡ min n (length xs) → take k xs ≡ take n xs
  take-min zero zero xs e = refl
  take-min zero (suc k) xs e = absurd (omega arith)
  take-min (suc n) zero [] e = refl
  take-min (suc n) (suc k) [] e = absurd (omega arith)
  take-min (suc n) zero (x ∷ xs) e = absurd (omega arith)
  take-min (suc n) (suc k) (x ∷ xs) e = ap (◌∷◌ x) (take-min n k xs (omega arith))

  drop_add : (a b c : ℕ) (xs : List T) → c ≡ a + b → drop c xs ≡ drop b (drop a xs)
  drop_add zero b c xs e = let same : c ≡ b = omega arith in rw same
  drop_add (suc a) b zero xs e = absurd (omega arith)
  drop_add (suc a) zero (suc c) [] e = refl
  drop_add (suc a) (suc b) (suc c) [] e = refl
  drop_add (suc a) b (suc c) (x ∷ xs) e = drop_add a b c xs (omega arith)

  drop-length-take : (n : ℕ) (xs : List T) → drop (length (take n xs)) xs ≡ drop n xs
  drop-length-take zero xs = refl
  drop-length-take (suc n) [] = refl
  drop-length-take (suc n) (x ∷ xs) = drop-length-take n xs

  -- A slice written back where it was read changes nothing.
  pub assign_back : (xs : List T) (pos n : ℕ) → assign xs pos n (take n (drop pos xs)) ≡ ok xs
  unfolding assign
  assign_back xs pos n =
      let same : length (take n (drop pos xs)) ≡ length (take n (drop pos xs)) = refl in
      rw
        (
          (==_iff _ _).1 same,
          drop_add pos (length (take n (drop pos xs))) _ xs refl,
          drop-length-take n (drop pos xs),
          take-append-drop n (drop pos xs),
          take-append-drop pos xs,
        )
        refl
