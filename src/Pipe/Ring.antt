-- ===== src/Pipe/Ring.antt =====
-- The bytes that a pipe holds, and what the two copying loops do to them.
use agentic_os_harness.Common.{
  ℕ, zero, suc, ◌+◌, ◌%◌, ◌≤◌, ◌<◌, ◌≡◌, refl, ap, ap₂, ◌∙◌, List, [], ◌∷◌, ◌++◌, arith, length,
  length-set, get_or, get_or-set, get_or-set_ne, set, append_assoc, append-nil, u32_mod,
}
use agentic_os_harness.Pipe.{Pipe, pipe_capacity, read_bytes, write_bytes}

-- The `n` bytes from index `h` on, going round at the end of the buffer.
abbrev pub span : List ℕ → ℕ → ℕ → List ℕ
span buffer h zero = []
span buffer h (suc n) = get_or buffer h 0 ∷ span buffer ((h + 1) % pipe_capacity) n

-- What the pipe holds, oldest byte first.
abbrev pub contents : Pipe → List ℕ
contents p = span p.buffer p.read_pos p.count

pub record IsValid (p : Pipe) : Type 0 where
  pub storage : length p.buffer ≡ pipe_capacity
  pub read_in : p.read_pos < pipe_capacity
  pub fits : p.count ≤ pipe_capacity
  pub write_at : p.write_pos ≡ (p.read_pos + p.count) % pipe_capacity
  pub readers_word : p.readers < u32_mod
  pub writers_word : p.writers < u32_mod

pub length-span : (buffer : List ℕ) (h n : ℕ) → length (span buffer h n) ≡ n
length-span buffer h zero = refl
length-span buffer h (suc n) = ap suc (length-span buffer ((h + 1) % pipe_capacity) n)

pub span-add :
    (buffer : List ℕ) (h n m k : ℕ)
    → h < pipe_capacity
    → k ≡ n + m
    → span buffer h k ≡ span buffer h n ++ span buffer ((h + n) % pipe_capacity) m
span-add buffer h zero m k in_range e =
    let same : (h + 0) % pipe_capacity ≡ h = omega arith in
    let all : k ≡ m = omega arith in rw (same, all)
span-add buffer h (suc n) m zero in_range e = absurd (omega arith)
span-add buffer h (suc n) m (suc k) in_range e =
    let next = (h + 1) % pipe_capacity in
    let shift : (h + suc n) % pipe_capacity ≡ (next + n) % pipe_capacity = omega arith in
    rw shift
      (ap (λ bs. get_or buffer h 0 ∷ bs) (span-add buffer next n m k (omega arith) (omega arith)))

-- The reading loop copies out the next `n` bytes and moves the read position behind them.
pub read_bytes_lem :
    (n : ℕ) (p : Pipe)
    → p.read_pos < pipe_capacity
    → read_bytes n p
      ≡ (span p.buffer p.read_pos n, record p { read_pos = (p.read_pos + n) % pipe_capacity })
unfolding read_bytes
read_bytes_lem zero p h =
    let same : (p.read_pos + 0) % pipe_capacity ≡ p.read_pos = omega arith in rw same
read_bytes_lem (suc n) p h =
    let next = record p { read_pos = (p.read_pos + 1) % pipe_capacity } in
    let shift : (next.read_pos + n) % pipe_capacity ≡ (p.read_pos + suc n) % pipe_capacity =
      omega arith in
    rw (read_bytes_lem n next (omega arith), shift)

-- A byte written behind a span, with room left, lengthens the span by that byte.
pub span-set :
    (buffer : List ℕ) (h n i b : ℕ)
    → length buffer ≡ pipe_capacity
    → h < pipe_capacity
    → n < pipe_capacity
    → i ≡ (h + n) % pipe_capacity
    → span (set buffer i b) h (suc n) ≡ span buffer h n ++ (b ∷ [])
span-set buffer h zero i b len h_in n_in e =
    ap (λ x. x ∷ []) (ground (arith, get_or-set buffer i h b 0 (omega arith)))
span-set buffer h (suc n) i b len h_in n_in e =
    ap₂ ◌∷◌ (get_or-set_ne buffer i h b 0 (omega arith)) (
      span-set buffer ((h + 1) % pipe_capacity) n i b len (omega arith) (omega arith) (omega arith))

-- What the writing loop leaves, started on a span of `n` bytes.
pub record Wrote (p : Pipe) (n : ℕ) (bs : List ℕ) (q : Pipe) : Type 0 where
  pub bytes : span q.buffer p.read_pos (n + length bs) ≡ span p.buffer p.read_pos n ++ bs
  pub position : q.write_pos ≡ (p.read_pos + n + length bs) % pipe_capacity
  pub storage : length q.buffer ≡ pipe_capacity
  pub rest :
      (q.read_pos ≡ p.read_pos)
      × (q.count ≡ p.count)
      × (q.readers ≡ p.readers)
      × (q.writers ≡ p.writers)
      × (q.used ≡ p.used)

pub write_bytes-Wrote :
    (bs : List ℕ) (p : Pipe) (n : ℕ)
    → length p.buffer ≡ pipe_capacity
    → p.read_pos < pipe_capacity
    → p.write_pos ≡ (p.read_pos + n) % pipe_capacity
    → n + length bs ≤ pipe_capacity
    → Wrote p n bs (write_bytes bs p)
unfolding write_bytes
write_bytes-Wrote [] p n len h e room = record {
  bytes = let all : n + 0 ≡ n = omega arith in rw (all, append-nil);
  position = omega arith;
  storage = len;
  rest = (refl, refl, refl, refl, refl);
}
write_bytes-Wrote (b ∷ bs) p n len h e room =
    let q = record p {
      buffer = set p.buffer p.write_pos b;
      write_pos = (p.write_pos + 1) % pipe_capacity;
    } in
    let w : Wrote q (suc n) bs (write_bytes bs q) =
      write_bytes-Wrote bs q (suc n) (omega (arith, length-set p.buffer p.write_pos b)) h
        (omega arith) (omega arith) in
    record {
      bytes =
          let count : n + suc (length bs) ≡ suc n + length bs = omega arith in
          ap (span (write_bytes bs q).buffer p.read_pos) count
          ∙ w.bytes
          ∙ ap (λ xs. xs ++ bs) (span-set p.buffer p.read_pos n p.write_pos b len h (omega arith) e)
          ∙ append_assoc (span p.buffer p.read_pos n) (b ∷ []) bs;
      position = omega (arith, w.position);
      storage = w.storage;
      rest = w.rest;
    }
