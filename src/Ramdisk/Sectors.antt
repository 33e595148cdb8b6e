-- ===== src/Ramdisk/Sectors.antt =====
-- The sectors of kernel/ramdisk.c: it is a disk.
use agentic_os_harness.Common.{
  ℕ, zero, suc, ◌+◌, ◌*◌, ◌≤◌, ◌<◌, ◌≡◌, refl, ap, sym, ◌∙◌, true, false, some, List, [], ◌∷◌,
  arith, ltb, ◌==◌, if◌then◌else◌, length, take, Bool-cases, inl, inr, bytes_from, store_bytes,
}
use agentic_os_harness.Disk.{IsDisk, sector_size}
use agentic_os_harness.Ramdisk.{
  Ramdisk, ramdisk_sectors, ramdisk_range_valid, ramdisk_read_sector, ramdisk_write_sector,
  ramdisk_dev,
}
use agentic_os_harness.Common.{◌⊎◌}
use agentic_os_harness.Disk.{IsSectored}
use agentic_os_harness.Common.{sym, some, none, List, ap, ◌∙◌}
use agentic_os_harness.Ramdisk.{ramdisk_read_sector, ramdisk_range_valid}

pub length-bytes_from : (mem : ℕ → ℕ) (n a : ℕ) → length (bytes_from mem n a) ≡ n
length-bytes_from mem zero a = refl
length-bytes_from mem (suc n) a = ap suc (length-bytes_from mem n (a + 1))

pub take-length {ℓ} : {A : Type ℓ} (xs : List A) → take (length xs) xs ≡ xs
take-length [] = refl
take-length (x ∷ xs) = ap (λ ys. x ∷ ys) (take-length xs)

pub store_bytes-outside :
    (bytes : List ℕ) (mem : ℕ → ℕ) (a x : ℕ)
    → (x < a) ⊎ (a + length bytes ≤ x)
    → store_bytes mem a bytes x ≡ mem x
store_bytes-outside [] mem a x h = refl
store_bytes-outside (b ∷ bs) mem a x h =
    store_bytes-outside bs (λ y. if y == a then b else mem y) (a + 1) x (later h)
    ∙ ground (arith, h)
  where
    later : (x < a) ⊎ (a + length (b ∷ bs) ≤ x) → (x < a + 1) ⊎ (a + 1 + length bs ≤ x)
    later (inl l) = inl (omega arith)
    later (inr l) = inr (omega arith)

pub bytes_from-same :
    (n : ℕ) (mem mem' : ℕ → ℕ) (a : ℕ)
    → ((x : ℕ) → a ≤ x → x < a + n → mem x ≡ mem' x)
    → bytes_from mem n a ≡ bytes_from mem' n a
bytes_from-same zero mem mem' a h = refl
bytes_from-same (suc n) mem mem' a h =
    ap (λ b. b ∷ bytes_from mem n (a + 1)) (h a (omega arith) (omega arith))
    ∙ ap (λ bs. mem' a ∷ bs)
        (bytes_from-same n mem mem' (a + 1) (λ x l u. h x (omega arith) (omega arith)))

pub bytes_from-store_bytes :
    (bytes : List ℕ) (mem : ℕ → ℕ) (a : ℕ)
    → bytes_from (store_bytes mem a bytes) (length bytes) a ≡ bytes
bytes_from-store_bytes [] mem a = refl
bytes_from-store_bytes (b ∷ bs) mem a =
    let mem' = λ (y : ℕ). if y == a then b else mem y in
    let here : store_bytes mem' (a + 1) bs a ≡ b =
      store_bytes-outside bs mem' (a + 1) a (inl (omega arith)) ∙ ground arith in
    ap (λ x. x ∷ bytes_from (store_bytes mem' (a + 1) bs) (length bs) (a + 1)) here
    ∙ ap (λ bs. b ∷ bs) (bytes_from-store_bytes bs mem' (a + 1))

module _ (d : Ramdisk) (i : ℕ) (inside : i < ramdisk_sectors) where
  valid : ramdisk_range_valid i 1 ≡ true
  unfolding ramdisk_range_valid
  valid = ground arith

  read-eq :
      ramdisk_read_sector d i true ≡ some (bytes_from d.contents sector_size (i * sector_size))
  unfolding ramdisk_read_sector
  read-eq = rw valid refl

written : Ramdisk → ℕ → List ℕ → Ramdisk
written d i bytes = record d { contents = store_bytes d.contents (i * sector_size) bytes }

write-eq :
    (d : Ramdisk) (i : ℕ) (bytes : List ℕ)
    → i < ramdisk_sectors
    → length bytes ≡ sector_size
    → ramdisk_write_sector d i (some bytes) ≡ some (written d i bytes)
unfolding ramdisk_write_sector written
write-eq d i bytes h l =
    let all : take sector_size bytes ≡ bytes = ap (λ n. take n bytes) (sym l) ∙ take-length bytes in
    rw (valid d i h, all) refl

read-written :
    (d : Ramdisk) (i j : ℕ) (bytes : List ℕ)
    → i < ramdisk_sectors
    → j < ramdisk_sectors
    → length bytes ≡ sector_size
    → ramdisk_read_sector (written d i bytes) j true
      ≡ (if i == j then some bytes else ramdisk_read_sector d j true)
unfolding written
read-written d i j bytes h k l = read-eq (written d i bytes) j k ∙ elim (Bool-cases (i == j)) [
  | inl here ↦
      let same : i ≡ j = ground arith in
      rw (here, ← same)
        (ap some (
          ap (λ n. bytes_from (store_bytes d.contents (i * sector_size) bytes) n (i * sector_size))
            (sym l)
          ∙ bytes_from-store_bytes bytes d.contents (i * sector_size)))
  | inr other ↦ rw other (
      ap some (
        bytes_from-same sector_size _ d.contents (j * sector_size)
          (λ x a b. store_bytes-outside bytes d.contents (i * sector_size) x (apart x a b other)))
      ∙ sym (read-eq d j k))
]
  where
    apart :
        (x : ℕ)
        → j * sector_size ≤ x
        → x < j * sector_size + sector_size
        → (i == j) ≡ false
        → (x < i * sector_size) ⊎ (i * sector_size + length bytes ≤ x)
    apart x a b e = elim (Bool-cases (ltb i j)) [
      | inl less ↦ inr (ground (arith, less, l))
      | inr more ↦ inl (ground (arith, more, e))
    ]

-- A read of the ramdisk in range gives a sector of 512 bytes, and a write in range succeeds and changes
-- that sector and no other.
pub ramdisk_dev-IsDisk : IsDisk ramdisk_dev
ramdisk_dev-IsDisk = record {
  reads = λ d i h. (
    bytes_from d.contents sector_size (i * sector_size),
    read-eq d i h,
    length-bytes_from d.contents sector_size (i * sector_size),
  );
  writes = λ d i bytes h l.
      (written d i bytes, write-eq d i bytes h l, λ j k. read-written d i j bytes h k l);
}

-- A sector that is read has its size.
pub ramdisk_dev-IsSectored : IsSectored ramdisk_dev
unfolding ramdisk_read_sector
ramdisk_dev-IsSectored d lba bytes e = elim (Bool-cases (ramdisk_range_valid lba 1)) [
  | inl valid ↦
      let r : some (bytes_from d.contents 512 (lba * 512)) ≡ some bytes = rw valid at e in
      let same : bytes_from d.contents 512 (lba * 512) ≡ bytes = cc in
      ap (λ (l : List ℕ). length l) (sym same) ∙ length-bytes_from d.contents 512 (lba * 512)
  | inr outside ↦ absurd (let r : none ≡ some bytes = rw outside at e in cc)
]
