-- ===== src/Paging/Words.antt =====
-- Copies of words between two places in memory, for `copy_physical_page` of kernel/paging.c.
use agentic_os_harness.Common.{
  ℕ, zero, suc, ◌+◌, ◌*◌, ◌≤◌, ◌<◌, ◌≡◌, refl, ◌∙◌, true, false, arith, ◌==◌, inl, ◌⊎◌,
}
use agentic_os_harness.Paging.{PageState, store}
use agentic_os_harness.Paging.{store}

-- A copy of `n` words between two places in memory.
unfoldable pub copied_words : ℕ → ℕ → ℕ → PageState → PageState
copied_words zero source dest s = s
copied_words (suc n) source dest s =
    copied_words n (source + 4) (dest + 4) (store dest (s.words source) s)

-- A word off the copy is as before.
pub copied_words-outside :
    (n source dest x : ℕ) (s : PageState)
    → (x < dest) ⊎ (dest + 4 * n ≤ x)
    → (copied_words n source dest s).words x ≡ s.words x
unfolding copied_words
copied_words-outside zero source dest x s h = refl
copied_words-outside (suc n) source dest x s h =
    let off : (x == dest) ≡ false = ground (arith, h) in
    copied_words-outside n (source + 4) (dest + 4) x (store dest (s.words source) s)
      (ground (arith, h))
    ∙ rw off refl

-- A word of the copy is the word of the source, when the two blocks are apart.
pub copied_words-inside :
    (n i source dest : ℕ) (s : PageState)
    → i < n
    → (source + 4 * n ≤ dest) ⊎ (dest + 4 * n ≤ source)
    → (copied_words n source dest s).words (dest + 4 * i) ≡ s.words (source + 4 * i)
unfolding copied_words
copied_words-inside zero i source dest s h apart = omega (arith, h)
copied_words-inside (suc n) zero source dest s h apart =
    let here : (dest == dest) ≡ true = ground arith in
    let start : dest + 4 * 0 ≡ dest = omega arith in
    let first : source + 4 * 0 ≡ source = omega arith in
    rw (start, first)
      (copied_words-outside n (source + 4) (dest + 4) dest (store dest (s.words source) s)
          (inl (omega arith))
        ∙ rw here refl)
copied_words-inside (suc n) (suc i) source dest s h apart =
    let off : ((source + 4 + 4 * i) == dest) ≡ false = ground (arith, h, apart) in
    let at : dest + 4 * suc i ≡ dest + 4 + 4 * i = omega arith in
    let from : source + 4 * suc i ≡ source + 4 + 4 * i = omega arith in
    rw (at, from)
      (copied_words-inside n i (source + 4) (dest + 4) (store dest (s.words source) s)
          (omega (arith, h)) (ground (arith, h, apart))
        ∙ rw off refl)
