-- ===== src/Elf/Reading.antt =====
-- What kernel/elf.c reads of a file: its content.
use agentic_os_harness.Common.{
  ℕ, zero, suc, ◌+◌, ◌-◌, ◌≤◌, ◌<◌, ◌≡◌, refl, ap, sym, subst, ◌∙◌, true, not, Option, none, some,
  List, [], ◌∷◌, ◌++◌, arith, ltb, ◌==◌, if◌then◌else◌, Bool-cases, inl, inr, length, length-append,
  take, drop, ℤ, pos, negsuc, add32, ◌||◌,
}
use agentic_os_harness.Vfs.{
  FileSystem, FileInfo, Vfs, vfs_read, vfs_open, vfs_stat, vfs_close, vfs_o_rdonly,
}
use agentic_os_harness.Vfs.Files.{IsFileTable}
use agentic_os_harness.Vfs.Open.{Opens, vfs_open-Opens}
use agentic_os_harness.Vfs.Reads.{
  IsFiles, Reading, Chunk, Found, vfs_read-Chunk, Given-Reading, vfs_stat-Found,
}
use agentic_os_harness.Elf.Load.{
  Machine, Outcome, done, failed, read_rest, file_read, file_opened, file_found,
  read_file_into_buffer, closed, after_read,
}
use agentic_os_harness.Elf.Image.{elf_eio}

-- Two parts of a list that follow one another.
take-append : (m n k : ℕ) (xs : List ℕ) → m ≡ n + k → take n xs ++ take k (drop n xs) ≡ take m xs
take-append m zero k xs e = ap (λ j. take j xs) {x = k} {y = m} (omega (arith, e))
take-append zero (suc n) k xs e = absurd (omega (arith, e))
take-append (suc m) (suc n) zero [] e = refl
take-append (suc m) (suc n) (suc k) [] e = refl
take-append (suc m) (suc n) k (x ∷ xs) e = ap (λ l. x ∷ l) (take-append m n k xs (omega (arith, e)))

take-length : (k : ℕ) (xs : List ℕ) → take k xs ≡ take (length (take k xs)) xs
take-length zero xs = refl
take-length (suc k) [] = refl
take-length (suc k) (x ∷ xs) = ap (λ l. x ∷ l) (take-length k xs)

take-all : (xs : List ℕ) → take (length xs) xs ≡ xs
take-all [] = refl
take-all (x ∷ xs) = ap (λ l. x ∷ l) (take-all xs)

length-take_le : (k : ℕ) (xs : List ℕ) → length (take k xs) ≤ k
length-take_le zero xs = omega arith
length-take_le (suc k) [] = omega arith
length-take_le (suc k) (x ∷ xs) = omega (arith, length-take_le k xs)

-- What was read, with the part that follows.
part_added :
    (n c wanted : ℕ) (bytes chunk file : List ℕ)
    → bytes ≡ take n file
    → chunk ≡ take wanted (drop n file)
    → length chunk ≡ c
    → bytes ++ chunk ≡ take (n + c) file
part_added n c wanted bytes chunk file h e l =
    let whole : chunk ≡ take c (drop n file) =
      e
      ∙ take-length wanted (drop n file)
      ∙ ap (λ j. take j (drop n file)) (ap (λ (x : List ℕ). length x) (sym e) ∙ l) in
    ap (λ x. x ++ chunk) h ∙ ap (λ x. take n file ++ x) whole ∙ take-append (n + c) n c file refl

module _ {D P : Type 0} where
  -- What the loop has read is the start of the file.
  abbrev HasRead : (ℕ → ℕ) → List ℕ → Outcome (ℕ × List ℕ) × Machine D P → Type 0
  HasRead before file (done (n, bytes), m) =
      (bytes ≡ take n file) × (length bytes ≡ n) × (m.memory ≡ before)
  HasRead before file (failed e, m) = Unit {0}

  -- A file that was read: its content, 8192 bytes at most, and memory as it was.
  abbrev pub IsRead : (ℕ → ℕ) → List ℕ → Outcome (List ℕ) × Machine D P → Type 0
  IsRead before file (done got, m) = (got ≡ file) × (length file ≤ 8192) × (m.memory ≡ before)
  IsRead before file (failed e, m) = Unit {0}

module _ {D P : Type 0} (fs : FileSystem D) (content : D → List ℕ → List ℕ)
    (files : IsFiles fs content) (name file : List ℕ) where
  read_rest-HasRead :
      (fuel fd size n : ℕ) (bytes : List ℕ) (m : Machine D P)
      → Reading fs content files name file fd n m.vfs m.disk
      → bytes ≡ take n file
      → length bytes ≡ n
      → size ≤ 8192
      → HasRead m.memory file (read_rest fs fuel (pos fd) size n bytes m)
  unfolding read_rest
  read_rest-HasRead zero fd size n bytes m r h l small = (h, l, refl)
  read_rest-HasRead (suc fuel) fd size n bytes m r h l small = elim (Bool-cases (ltb n size)) [
    | inl more ↦ rw more (
        round
          (λ c chunk v d e k r'.
            read_rest-HasRead fuel fd size (add32 n c) (bytes ++ chunk)
              (record m { vfs = v; disk = d }) r' e k small)
          (vfs_read fs m.vfs (pos fd) true (size - n) m.disk)
          (vfs_read-Chunk fs content files name file fd n (size - n) m.vfs m.disk r)
          (ground (arith, more)))
    | inr over ↦ rw over (h, l, refl)
  ]
    where
      round :
          ((c : ℕ) (chunk : List ℕ) (v : Vfs) (d : D)
            → bytes ++ chunk ≡ take (add32 n c) file
            → length (bytes ++ chunk) ≡ add32 n c
            → Reading fs content files name file fd (add32 n c) v d
            → HasRead m.memory file (
                read_rest fs fuel
                  (pos fd)
                  size
                  (add32 n c)
                  (bytes ++ chunk)
                  (record m { vfs = v; disk = d })))
          → (x : ℤ × List ℕ × Vfs × D) → Chunk fs content files name file fd n (size - n) x
          → n < size
          → HasRead m.memory file (
              after_read fs
                (pos fd)
                x
                (λ c chunk m'. read_rest fs fuel (pos fd) size (add32 n c) (bytes ++ chunk) m')
                m)
      round next (pos zero, chunk, v, d) g more = tt
      round next (negsuc e, chunk, v, d) g more = tt
      round next (pos (suc c), chunk, v, d) g more =
          let le = length-take_le (size - n) (drop n file) in
          let short : length chunk ≤ size - n =
            subst (λ (x : List ℕ). length x ≤ size - n) (sym g.0) le in
          let sum : add32 n (suc c) ≡ n + suc c = omega (arith, short, g.1, small, more) in
          next (suc c) chunk v d
            (part_added n (suc c) (size - n) bytes chunk file h g.0 g.1
              ∙ ap (λ j. take j file) (sym sum))
            (omega (arith, length-append bytes chunk, l, g.1, sum)) g.2

  file_read-IsRead :
      (before : ℕ → ℕ) (fd : ℤ) (size : ℕ) (r : Outcome (ℕ × List ℕ) × Machine D P)
      → size ≤ 8192
      → size ≡ length file
      → HasRead before file r
      → IsRead before file (file_read fs fd size r)
  file_read-IsRead before fd size (failed e, m) small s h = tt
  file_read-IsRead before fd size (done (n, bytes), m) small s h =
      checked (vfs_close m.vfs.files fd).0
    where
      checked :
          (status : ℤ)
          → IsRead {D = D} {P = P} before file (elim status [
            | pos zero ↦
                if not (n == size)
                then (failed elf_eio, (closed fs fd m).1)
                else (done bytes, (closed fs fd m).1)
            | _ ↦ (failed elf_eio, (closed fs fd m).1)
          ])
      checked (negsuc e) = tt
      checked (pos (suc k)) = tt
      checked (pos zero) = elim (Bool-cases (n == size)) [
        | inl whole ↦
            let all : n ≡ length file = ground (arith, whole, s) in
            rw whole
              (h.0 ∙ ap (λ j. take j file) all ∙ take-all file, ground (arith, s, small), h.2)
        | inr part ↦ rw part tt
      ]

  file_opened-IsRead :
      (size : ℕ) (v : Vfs) (d : D) (r : ℤ × Vfs × D) (m : Machine D P)
      → size ≤ 8192
      → size ≡ length file
      → IsFileTable v.files
      → content d name ≡ file
      → Opens fs v (some name) vfs_o_rdonly d r
      → IsRead m.memory file (file_opened fs size r.0 (record m { vfs = r.1; disk = r.2 }))
  file_opened-IsRead size v d (pos fd, v', d') m small s t k g =
      let m' = record m { vfs = v'; disk = d' } in
      let r =
        subst (λ f. Reading fs content files name f fd 0 v' d') k
          (Given-Reading fs content files v name d fd v' d' t g) in
      file_read-IsRead m.memory (pos fd) size (read_rest fs size (pos fd) size 0 [] m') small s
        (read_rest-HasRead size fd size 0 [] m' r refl refl small)
  file_opened-IsRead size v d (negsuc zero, v', d') m small s t k g = tt
  file_opened-IsRead size v d (negsuc (suc zero), v', d') m small s t k g = tt
  file_opened-IsRead size v d (negsuc (suc (suc e)), v', d') m small s t k g = tt

  file_found-IsRead :
      (status : ℤ) (info : Option FileInfo) (m : Machine D P)
      → IsFileTable m.vfs.files
      → Found fs content files name file (status, info, m.disk)
      → IsRead m.memory file (file_found fs (some name) status info m)
  file_found-IsRead (pos zero) none m t f = tt
  file_found-IsRead (pos (suc n)) info m t f = tt
  file_found-IsRead (negsuc zero) info m t f = tt
  file_found-IsRead (negsuc (suc zero)) info m t f = tt
  file_found-IsRead (negsuc (suc (suc n))) info m t f = tt
  file_found-IsRead (pos zero) (some info) m t f =
      elim (Bool-cases (info.size == 0 || ltb 8192 info.size)) [
        | inl bad ↦ rw bad tt
        | inr good ↦ rw good (
            file_opened-IsRead info.size m.vfs m.disk
              (vfs_open fs m.vfs (some name) vfs_o_rdonly m.disk) m (ground (arith, good)) f.0 t f.1
              (vfs_open-Opens fs files.opens m.vfs (some name) vfs_o_rdonly m.disk))
      ]

module _ {D P : Type 0} (fs : FileSystem D) (content : D → List ℕ → List ℕ)
    (files : IsFiles fs content) where
  pub read_file_into_buffer-IsRead :
      (name : List ℕ) (m : Machine D P)
      → IsFileTable m.vfs.files
      → IsRead m.memory (content m.disk name) (read_file_into_buffer fs (some name) m)
  unfolding read_file_into_buffer
  read_file_into_buffer-IsRead name m t =
      let (status, info, disk) = vfs_stat fs m.vfs (some name) true m.disk in
      file_found-IsRead fs content files name (content m.disk name) status info
        (record m { disk = disk }) t (vfs_stat-Found fs content files m.vfs name m.disk)
