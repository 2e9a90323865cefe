-- ===== src/BlockSwap/Patch/Occurrences.antt =====
-- Searching and replacing in a text that is put together of parts.
use orch_kv_cache.Prelude.{
  ℕ, ◌≤◌, ◌==◌, ◌≡◌, refl, sym, ap, ◌∙◌, inl, inr, arith, Bool, true, false, ◌&&◌, [], ◌∷◌, ◌++◌,
  if◌then◌else◌, length, length-append, drop, Bool-cases,
}
use mathlib.Core.List.{append_assoc}
use orch_kv_cache.BlockSwap.Patch.{Text, begins_with, occurs, replace_first}

begins_with-append : (p v : Text) → begins_with p (p ++ v) ≡ true
begins_with-append [] v = refl
begins_with-append (c ∷ p) v = ground (arith, begins_with-append p v)

-- What stands behind a long enough beginning does not count.
begins_with_beyond :
    (p u z w : Text) → length p ≤ length u → begins_with p (u ++ z) ≡ begins_with p (u ++ w)
begins_with_beyond [] u z w h = refl
begins_with_beyond (c ∷ p) [] z w h = absurd (omega arith)
begins_with_beyond (c ∷ p) (d ∷ u) z w h = ground (arith, begins_with_beyond p u z w)

begins_with-split : (p t : Text) → begins_with p t ≡ true → t ≡ p ++ drop (length p) t
begins_with-split [] t h = refl
begins_with-split (c ∷ p) [] h = absurd (cc)
begins_with-split (c ∷ p) (d ∷ t) h = ground (arith, begins_with-split p t)

-- The pattern and the text differ where both have a character.
unfoldable pub differ : Text → Text → Bool
differ [] t = false
differ (c ∷ p) [] = false
differ (c ∷ p) (d ∷ t) = if c == d then differ p t else true

-- The pattern begins nowhere in the text, whatever follows the text.
unfoldable pub is_clear : Text → Text → Bool
unfolding differ
is_clear p [] = true
is_clear p (d ∷ t) = differ p (d ∷ t) && is_clear p t

differ-begins_with : (p u w : Text) → differ p u ≡ true → begins_with p (u ++ w) ≡ false
unfolding differ
differ-begins_with [] u w h = absurd (cc)
differ-begins_with (c ∷ p) [] w h = absurd (cc)
differ-begins_with (c ∷ p) (d ∷ u) w h = ground (arith, differ-begins_with p u w)

pub occurs_past_clear : (p u w : Text) → is_clear p u ≡ true → occurs p (u ++ w) ≡ occurs p w
unfolding occurs is_clear
occurs_past_clear p [] w h = refl
occurs_past_clear p (d ∷ u) w h =
    ground (arith, differ-begins_with p (d ∷ u) w, occurs_past_clear p u w)

pub occurs_behind : (p u w : Text) → occurs p w ≡ true → occurs p (u ++ w) ≡ true
unfolding occurs
occurs_behind p [] w h = h
occurs_behind p (d ∷ u) w h = ground (arith, occurs_behind p u w h)

pub occurs_at_start : (c : ℕ) (p v : Text) → occurs (c ∷ p) ((c ∷ p) ++ v) ≡ true
unfolding occurs
occurs_at_start c p v = rw (begins_with-append (c ∷ p) v) refl

-- Two texts that agree up to the end of `u`, which is as long as the pattern: it occurs in both if it
-- occurs in both from the start of `u` on.
pub occurs_beyond :
    (p before u z w : Text)
    → length p ≤ length u
    → occurs p (u ++ z) ≡ occurs p (u ++ w)
    → occurs p (before ++ (u ++ z)) ≡ occurs p (before ++ (u ++ w))
unfolding occurs
occurs_beyond p [] u z w h e = e
occurs_beyond p (d ∷ before) u z w h e =
    let long : length p ≤ length ((d ∷ before) ++ u) = omega (arith, length-append before u) in
    let same = begins_with_beyond p ((d ∷ before) ++ u) z w long in
    let start : begins_with p (d ∷ (before ++ (u ++ z)))
        ≡ begins_with p (d ∷ (before ++ (u ++ w))) =
      ap (λ t. begins_with p (d ∷ t)) (sym (append_assoc before u z))
      ∙ same
      ∙ ap (λ t. begins_with p (d ∷ t)) (append_assoc before u w) in
    ground (arith, start, occurs_beyond p before u z w h e)

-- A text in which a pattern occurs, and the text with the first occurrence replaced.
pub replace_first-split :
    (c : ℕ) (p new t : Text)
    → occurs (c ∷ p) t ≡ true
    → (before : Text) × (after : Text) × (t ≡ before ++ ((c ∷ p) ++ after))
      × (replace_first (c ∷ p) new t ≡ before ++ (new ++ after))
unfolding occurs replace_first
replace_first-split c p new [] h = absurd (cc)
replace_first-split c p new (d ∷ t) h = elim (Bool-cases (begins_with (c ∷ p) (d ∷ t))) [
  | inl here ↦
      ([], drop (length (c ∷ p)) (d ∷ t), begins_with-split (c ∷ p) (d ∷ t) here, rw here refl)
  | inr later ↦
      let there : occurs (c ∷ p) t ≡ true = ground arith in
      let (before, after, e, r) = replace_first-split c p new t there in
      (d ∷ before, after, ap (◌∷◌ d) e, rw later (ap (◌∷◌ d) r))
]

-- A replacement that keeps the beginning of what it replaces, by texts in which a pattern begins
-- nowhere: the pattern occurs afterwards if it did before.
pub occurs-replace_first :
    (p h r new t : Text) (c : ℕ) (a : Text)
    → c ∷ a ≡ h ++ r
    → length p ≤ length h
    → is_clear p h ≡ true
    → is_clear p r ≡ true
    → is_clear p new ≡ true
    → occurs (c ∷ a) t ≡ true
    → occurs p (replace_first (c ∷ a) (h ++ new) t) ≡ occurs p t
occurs-replace_first p h r new t c a parts long ch cr cn found =
    let (before, after, e, replaced) = replace_first-split c a (h ++ new) t found in
    let old : t ≡ before ++ (h ++ (r ++ after)) =
      e ∙ ap (λ x. before ++ (x ++ after)) parts ∙ ap (λ x. before ++ x) (append_assoc h r after) in
    let fresh : replace_first (c ∷ a) (h ++ new) t ≡ before ++ (h ++ (new ++ after)) =
      replaced ∙ ap (λ x. before ++ x) (append_assoc h new after) in
    let from_h : occurs p (h ++ (new ++ after)) ≡ occurs p (h ++ (r ++ after)) =
      occurs_past_clear p h (new ++ after) ch
      ∙ occurs_past_clear p new after cn
      ∙ sym (occurs_past_clear p h (r ++ after) ch ∙ occurs_past_clear p r after cr) in
    ap (occurs p) fresh
    ∙ occurs_beyond p before h (new ++ after) (r ++ after) long from_h
    ∙ sym (ap (occurs p) old)

-- A pattern that stands in the replacement.
pub occurs-replace_first_new :
    (d : ℕ) (p u v t : Text) (c : ℕ) (a : Text)
    → occurs (c ∷ a) t ≡ true
    → occurs (d ∷ p) (replace_first (c ∷ a) (u ++ ((d ∷ p) ++ v)) t) ≡ true
occurs-replace_first_new d p u v t c a found =
    let (before, after, _, replaced) = replace_first-split c a (u ++ ((d ∷ p) ++ v)) t found in
    let fresh : replace_first (c ∷ a) (u ++ ((d ∷ p) ++ v)) t
        ≡ before ++ (u ++ ((d ∷ p) ++ (v ++ after))) =
      replaced
      ∙ ap (λ x. before ++ x)
          (append_assoc u ((d ∷ p) ++ v) after ∙ ap (λ x. u ++ x) (append_assoc (d ∷ p) v after)) in
    ap (occurs (d ∷ p)) fresh
    ∙ occurs_behind (d ∷ p) before (u ++ ((d ∷ p) ++ (v ++ after)))
        (occurs_behind (d ∷ p) u ((d ∷ p) ++ (v ++ after)) (occurs_at_start d p (v ++ after)))
