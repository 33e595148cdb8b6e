-- ===== src/Simplefs/Layout/Coding.antt =====
-- The structs of kernel/simplefs.c in a sector: what is read where they were written, and elsewhere.
use agentic_os_harness.Common.{
  ℕ, zero, suc, ◌+◌, ◌-◌, ◌≤◌, ◌<◌, ◌≡◌, refl, ap, ◌∙◌, List, [], ◌∷◌, ◌++◌, arith, length, get_or,
  take, drop, word_bytes, word_at, append_assoc, u32_mod,
}
use agentic_os_harness.Simplefs.State.{DirEntry}
use agentic_os_harness.Simplefs.Layout.{entry_bytes, entry_from}
use agentic_os_harness.Simplefs.Layout.{patch}
use agentic_os_harness.Common.{length-append, inl, inr, ◌⊎◌, ◌-◌}
use agentic_os_harness.Common.{length-take, length-drop, get_or-take, get_or-drop}

-- A name of 32 characters, and words of 32 bits.
pub record IsEntry (e : DirEntry) : Type 0 where
  pub name : length e.name ≡ 32
  pub used : e.used < u32_mod
  pub start_sector : e.start_sector < u32_mod
  pub size_bytes : e.size_bytes < u32_mod
  pub allocated_sectors : e.allocated_sectors < u32_mod
  pub flags : e.flags < u32_mod
  pub reserved0 : e.reserved0 < u32_mod
  pub reserved1 : e.reserved1 < u32_mod
  pub reserved2 : e.reserved2 < u32_mod

get_or-append :
    (xs ys : List ℕ) (i j : ℕ) → i ≡ length xs + j → get_or (xs ++ ys) i 0 ≡ get_or ys j 0
get_or-append [] ys i j e = ap (λ n. get_or ys n 0) (omega (arith, e))
get_or-append (x ∷ xs) ys zero j e = absurd (omega (arith, e))
get_or-append (x ∷ xs) ys (suc i) j e = get_or-append xs ys i j (omega (arith, e))

get_or-append_before :
    (xs ys : List ℕ) (i : ℕ) → i < length xs → get_or (xs ++ ys) i 0 ≡ get_or xs i 0
get_or-append_before [] ys i h = absurd (omega arith)
get_or-append_before (x ∷ xs) ys zero h = refl
get_or-append_before (x ∷ xs) ys (suc i) h = get_or-append_before xs ys i (omega arith)

-- A word behind `xs`.
word_at-append :
    (xs ys : List ℕ) (n k i : ℕ) → length xs ≡ n → i ≡ n + k → word_at (xs ++ ys) i ≡ word_at ys k
word_at-append xs ys n k i e p =
    rw
      (
        get_or-append xs ys i k (omega (arith, e, p)),
        get_or-append xs ys (i + 1) (k + 1) (omega (arith, e, p)),
        get_or-append xs ys (i + 2) (k + 2) (omega (arith, e, p)),
        get_or-append xs ys (i + 3) (k + 3) (omega (arith, e, p)),
      )
      refl

word_at-word_bytes : (w : ℕ) (xs : List ℕ) → w < u32_mod → word_at (word_bytes w ++ xs) 0 ≡ w
word_at-word_bytes w xs h = omega (arith, h)

drop-append : (xs ys : List ℕ) (n k : ℕ) → n ≡ length xs + k → drop n (xs ++ ys) ≡ drop k ys
drop-append [] ys n k e = ap (λ m. drop m ys) (omega (arith, e))
drop-append (x ∷ xs) ys zero k e = absurd (omega (arith, e))
drop-append (x ∷ xs) ys (suc n) k e = drop-append xs ys n k (omega (arith, e))

take-append : (xs ys : List ℕ) (n : ℕ) → length xs ≡ n → take n (xs ++ ys) ≡ xs
take-append [] ys zero e = refl
take-append [] ys (suc n) e = absurd (omega (arith, e))
take-append (x ∷ xs) ys zero e = absurd (omega (arith, e))
take-append (x ∷ xs) ys (suc n) e = ap (λ zs. x ∷ zs) (take-append xs ys n (omega (arith, e)))

module _ (e : DirEntry) (valid : IsEntry e) (rest : List ℕ) where
  -- What follows the name.
  abbrev tail : List ℕ
  tail =
      word_bytes e.start_sector
      ++ (word_bytes e.size_bytes
          ++ (word_bytes e.allocated_sectors
              ++ (word_bytes e.flags
                  ++ (word_bytes e.reserved0
                      ++ (word_bytes e.reserved1 ++ word_bytes e.reserved2)))))

  behind_name : (k : ℕ) → word_at ((e.name ++ tail) ++ rest) (32 + k) ≡ word_at (tail ++ rest) k
  behind_name k =
      ap (λ xs. word_at xs (32 + k)) (append_assoc e.name tail rest)
      ∙ word_at-append e.name (tail ++ rest) 32 k (32 + k) valid.name refl

  name_of : take 32 (drop 4 (entry_bytes e ++ rest)) ≡ e.name
  unfolding entry_bytes
  name_of =
      ap (take 32) (append_assoc e.name tail rest) ∙ take-append e.name (tail ++ rest) 32 valid.name

  -- An entry at the start of a list.
  entry_from-first : entry_from (entry_bytes e ++ rest) 0 ≡ e
  unfolding entry_from entry_bytes
  entry_from-first =
      rw
        (
          word_at-word_bytes e.used ((e.name ++ tail) ++ rest) valid.used,
          name_of,
          behind_name 0,
          behind_name 4,
          behind_name 8,
          behind_name 12,
          behind_name 16,
          behind_name 20,
          behind_name 24,
          word_at-word_bytes e.start_sector (drop 4 tail ++ rest) valid.start_sector,
          word_at-word_bytes e.size_bytes (drop 8 tail ++ rest) valid.size_bytes,
          word_at-word_bytes e.allocated_sectors (drop 12 tail ++ rest) valid.allocated_sectors,
          word_at-word_bytes e.flags (drop 16 tail ++ rest) valid.flags,
          word_at-word_bytes e.reserved0 (drop 20 tail ++ rest) valid.reserved0,
          word_at-word_bytes e.reserved1 (drop 24 tail ++ rest) valid.reserved1,
          word_at-word_bytes e.reserved2 rest valid.reserved2,
        )
        refl

entry_from-append :
    (xs ys : List ℕ) (n : ℕ) → length xs ≡ n → entry_from (xs ++ ys) n ≡ entry_from ys 0
unfolding entry_from
entry_from-append xs ys n h =
    rw
      (
        word_at-append xs ys n 0 n h (omega arith),
        drop-append xs ys (n + 4) 4 (omega (arith, h)),
        word_at-append xs ys n 36 (n + 36) h refl,
        word_at-append xs ys n 40 (n + 40) h refl,
        word_at-append xs ys n 44 (n + 44) h refl,
        word_at-append xs ys n 48 (n + 48) h refl,
        word_at-append xs ys n 52 (n + 52) h refl,
        word_at-append xs ys n 56 (n + 56) h refl,
        word_at-append xs ys n 60 (n + 60) h refl,
      )
      refl

-- An entry that is copied into a sector is the entry that is copied out of it at the same offset,
-- where the offset is in the sector, the name has 32 characters and the other fields are 32-bit words.
pub entry_from-patch :
    (sector : List ℕ) (offset : ℕ) (e : DirEntry)
    → offset ≤ length sector
    → IsEntry e
    → entry_from (patch sector offset (entry_bytes e)) offset ≡ e
entry_from-patch sector offset e h valid =
    let rest = drop (offset + length (entry_bytes e)) sector in
    entry_from-append (take offset sector) (entry_bytes e ++ rest) offset
      (length-take offset sector h)
    ∙ entry_from-first e valid rest

-- Sectors that agree from `offset` on for 64 bytes hold the same entry there.
take-drop_same :
    (n a : ℕ) (xs ys : List ℕ)
    → length xs ≡ length ys
    → ((i : ℕ) → a ≤ i → i < a + n → get_or xs i 0 ≡ get_or ys i 0)
    → take n (drop a xs) ≡ take n (drop a ys)
take-drop_same zero a xs ys l h = refl
take-drop_same (suc n) a [] [] l h = refl
take-drop_same (suc n) a [] (y ∷ ys) l h = absurd (omega (arith, l))
take-drop_same (suc n) a (x ∷ xs) [] l h = absurd (omega (arith, l))
take-drop_same (suc n) zero (x ∷ xs) (y ∷ ys) l h =
    ap (λ z. z ∷ take n xs) (h 0 (omega arith) (omega arith))
    ∙ ap (λ zs. y ∷ zs)
        (take-drop_same n 0 xs ys (omega (arith, l))
          (λ i p q. h (suc i) (omega arith) (omega arith)))
take-drop_same (suc n) (suc a) (x ∷ xs) (y ∷ ys) l h =
    take-drop_same (suc n) a xs ys (omega (arith, l))
      (λ i p q. h (suc i) (omega arith) (omega arith))

pub entry_from-same :
    (xs ys : List ℕ) (offset : ℕ)
    → length xs ≡ length ys
    → ((i : ℕ) → offset ≤ i → i < offset + 64 → get_or xs i 0 ≡ get_or ys i 0)
    → entry_from xs offset ≡ entry_from ys offset
unfolding entry_from
entry_from-same xs ys offset l h =
    let word : (k : ℕ) → k + 4 ≤ 64 → word_at xs (offset + k) ≡ word_at ys (offset + k) = λ k b.
      rw
        (
          h (offset + k) (omega arith) (omega arith),
          h (offset + k + 1) (omega arith) (omega arith),
          h (offset + k + 2) (omega arith) (omega arith),
          h (offset + k + 3) (omega arith) (omega arith),
        )
        refl in
    let first : word_at xs offset ≡ word_at ys offset =
      rw
        (
          h offset (omega arith) (omega arith),
          h (offset + 1) (omega arith) (omega arith),
          h (offset + 2) (omega arith) (omega arith),
          h (offset + 3) (omega arith) (omega arith),
        )
        refl in
    rw
      (
        first,
        take-drop_same 32 (offset + 4) xs ys l (λ i p q. h i (omega arith) (omega arith)),
        word 36 (omega arith),
        word 40 (omega arith),
        word 44 (omega arith),
        word 48 (omega arith),
        word 52 (omega arith),
        word 56 (omega arith),
        word 60 (omega arith),
      )
      refl

-- A copy into a sector keeps its length, and the bytes that it does not cover.
pub length-patch :
    (sector : List ℕ) (offset : ℕ) (bytes : List ℕ)
    → offset + length bytes ≤ length sector
    → length (patch sector offset bytes) ≡ length sector
length-patch sector offset bytes h = omega (
  arith,
  length-append (take offset sector) (bytes ++ drop (offset + length bytes) sector),
  length-append bytes (drop (offset + length bytes) sector),
  length-take offset sector (omega arith),
  length-drop (offset + length bytes) sector,
  h,
)

pub get_or-patch_outside :
    (sector : List ℕ) (offset : ℕ) (bytes : List ℕ) (i : ℕ)
    → offset + length bytes ≤ length sector
    → (i < offset) ⊎ (offset + length bytes ≤ i)
    → get_or (patch sector offset bytes) i 0 ≡ get_or sector i 0
get_or-patch_outside sector offset bytes i h (inl below) =
    let l = length-take offset sector (omega arith) in
    get_or-append_before (take offset sector) (bytes ++ drop (offset + length bytes) sector) i
      (omega (arith, l, below))
    ∙ get_or-take offset i sector 0 below
get_or-patch_outside sector offset bytes i h (inr above) =
    let l = length-take offset sector (omega arith) in
    let n = offset + length bytes in
    get_or-append (take offset sector) (bytes ++ drop n sector) i (i - offset)
      (omega (arith, l, above))
    ∙ (get_or-append bytes (drop n sector) (i - offset) (i - n) (omega (arith, above))
        ∙ (get_or-drop n (i - n) sector 0 ∙ ap (λ j. get_or sector j 0) (omega (arith, above))))

pub length-entry_bytes : (e : DirEntry) → IsEntry e → length (entry_bytes e) ≡ 64
unfolding entry_bytes
length-entry_bytes e valid = omega (arith, length-append e.name (tail e valid []), valid.name)
