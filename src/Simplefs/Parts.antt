-- ===== src/Simplefs/Parts.antt =====
-- Parts of the bytes of a run, for the reads of kernel/simplefs.c.
use agentic_os_harness.Common.{
  ℕ, zero, suc, ◌+◌, ◌-◌, ◌≤◌, ◌<◌, ◌≡◌, refl, ap, sym, ◌∙◌, List, [], ◌∷◌, ◌++◌, arith, get_or,
  length, take, drop, bytes_from,
}
use agentic_os_harness.Simplefs.Files.{min_u32}

-- A part of a list of bytes from a place on.
pub part_eq :
    (n o k : ℕ) (xs : List ℕ) (byte : ℕ → ℕ)
    → o + n ≤ length xs
    → ((j : ℕ) → j < n → byte (k + j) ≡ get_or xs (o + j) 0)
    → take n (drop o xs) ≡ bytes_from byte n k
part_eq zero o k xs byte h e = refl
part_eq (suc n) zero k [] byte h e = absurd (omega (arith, h))
part_eq (suc n) (suc o) k [] byte h e = absurd (omega (arith, h))
part_eq (suc n) (suc o) k (x ∷ xs) byte h e =
    part_eq (suc n) o k xs byte (omega (arith, h))
      (λ j b. e j b ∙ later (o + j) x xs (suc o + j) (omega arith))
  where
    later : (i x : ℕ) (xs : List ℕ) (m : ℕ) → m ≡ suc i → get_or (x ∷ xs) m 0 ≡ get_or xs i 0
    later i x xs m e = ap (λ j. get_or (x ∷ xs) j 0) e
part_eq (suc n) zero k (x ∷ xs) byte h e =
    let first : byte k ≡ x =
      ap byte {x = k} {y = k + 0} (omega arith)
      ∙ e 0 (omega arith)
      ∙ ap (λ j. get_or (x ∷ xs) j 0) {x = 0 + 0} {y = 0} (omega arith) in
    ap (λ y. y ∷ take n xs) (sym first)
    ∙ ap (λ l. byte k ∷ l)
        (part_eq n zero (k + 1) xs byte (omega (arith, h)) (λ j b.
          ap byte {x = k + 1 + j} {y = k + suc j} (omega arith)
          ∙ e (suc j) (omega (arith, b))
          ∙ ap (λ i. get_or (x ∷ xs) i 0) {x = 0 + suc j} {y = suc j} (omega arith)
          ∙ ap (λ i. get_or xs i 0) {x = j} {y = 0 + j} (omega arith)))

pub bytes_from-append :
    (byte : ℕ → ℕ) (m n p k q : ℕ)
    → m ≡ n + p
    → q ≡ k + n
    → bytes_from byte n k ++ bytes_from byte p q ≡ bytes_from byte m k
bytes_from-append byte m zero p k q e f =
    ap (λ j. bytes_from byte p j) {x = q} {y = k} (omega (arith, f))
    ∙ ap (λ j. bytes_from byte j k) {x = p} {y = m} (omega (arith, e))
bytes_from-append byte zero (suc n) p k q e f = absurd (omega (arith, e))
bytes_from-append byte (suc m) (suc n) p k q e f =
    ap (λ l. byte k ∷ l)
      (bytes_from-append byte m n p (k + 1) q (omega (arith, e)) (omega (arith, f)))

pub take-bytes_from :
    (byte : ℕ → ℕ) (c n k : ℕ) → take c (bytes_from byte n k) ≡ bytes_from byte (min_u32 c n) k
take-bytes_from byte zero n k =
    ap (λ j. bytes_from byte j k) {x = 0} {y = min_u32 0 n} (ground arith)
take-bytes_from byte (suc c) zero k =
    ap (λ j. bytes_from byte j k) {x = 0} {y = min_u32 (suc c) 0} (ground arith)
take-bytes_from byte (suc c) (suc n) k =
    ap (λ l. byte k ∷ l) (take-bytes_from byte c n (k + 1))
    ∙ ap (λ j. bytes_from byte j k) {x = suc (min_u32 c n)} {y = min_u32 (suc c) (suc n)}
        (ground arith)

pub drop-bytes_from :
    (byte : ℕ → ℕ) (o n k q : ℕ)
    → q ≡ k + o
    → drop o (bytes_from byte n k) ≡ bytes_from byte (n - o) q
drop-bytes_from byte zero n k q e =
    ap (λ j. bytes_from byte j k) {x = n} {y = n - 0} (omega arith)
    ∙ ap (λ j. bytes_from byte (n - 0) j) {x = k} {y = q} (omega (arith, e))
drop-bytes_from byte (suc o) zero k q e =
    ap (λ j. bytes_from byte j q) {x = 0} {y = 0 - suc o} (omega arith)
drop-bytes_from byte (suc o) (suc n) k q e =
    drop-bytes_from byte o n (k + 1) q (omega (arith, e))
    ∙ ap (λ j. bytes_from byte j q) {x = n - o} {y = suc n - suc o} (omega arith)
