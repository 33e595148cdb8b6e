-- ===== src/Pipe/Stream.antt =====
-- A pipe is a bounded queue of bytes: what one call takes from it or adds to it, and that any
-- sequence of calls delivers the bytes that were accepted, in order, each once.
use agentic_os_harness.Common.{
  ℕ, zero, suc, ◌+◌, ◌-◌, ◌≤◌, ◌<◌, ◌≡◌, inl, inr, refl, ap, ap₂, ◌∙◌, true, ◌&&◌, ◌||◌, List, [],
  ◌∷◌, ◌++◌, arith, ltb, leb, ◌==◌, if◌then◌else◌, Bool-cases, length, take, min, append-nil,
}
use agentic_os_harness.Pipe.{
  Pipe, PipeResult, copied, would_block, broken, pipe_capacity, pipe_buf, read_pipe, write_pipe,
  write_bytes,
}
use agentic_os_harness.Pipe.Ring.{
  span, contents, IsValid, length-span, span-add, read_bytes_lem, Wrote, write_bytes-Wrote,
}
use agentic_os_harness.Common.{sub32, add32}

pub length-take_of_le {ℓ} :
    {A : Type ℓ} (n : ℕ) (xs : List A) → n ≤ length xs → length (take n xs) ≡ n
length-take_of_le zero xs h = refl
length-take_of_le (suc n) [] h = absurd (omega arith)
length-take_of_le (suc n) (x ∷ xs) h = ap suc (length-take_of_le n xs (omega arith))

-- What one read does to a valid pipe that holds `bytes` in front of the rest.
pub record Read (p : Pipe) (wanted : ℕ) (out : PipeResult × List ℕ × Pipe) : Type 0 where
  pub order : contents p ≡ out.1 ++ contents out.2
  pub amount : length out.1 ≡ min wanted p.count
  pub status : out.0 ≡ (
      if p.count == 0
      then (if p.writers == 0 then copied 0 else would_block)
      else copied (min wanted p.count))
  pub valid : IsValid out.2
  pub ends : (out.2.readers ≡ p.readers) × (out.2.writers ≡ p.writers) × (out.2.used ≡ p.used)

-- A read of a valid pipe takes the oldest bytes, as many as it asks for and as there are, leaves the
-- others in order, and keeps the invariant. On an empty pipe it takes nothing: it returns 0 if no
-- writer is left, and would block otherwise.
pub read_pipe-Read : (p : Pipe) (wanted : ℕ) → IsValid p → Read p wanted (read_pipe p wanted)
unfolding read_pipe
read_pipe-Read p wanted v = elim (Bool-cases (p.count == 0)) [
  | inl empty ↦ rw empty (record {
    order = refl;
    amount = ground arith;
    status = ground arith;
    valid = v;
    ends = (refl, refl, refl);
  })
  | inr some_bytes ↦
      let n = if ltb wanted p.count then wanted else p.count in
      let least : n ≡ min wanted p.count = ground arith in
      rw (some_bytes, read_bytes_lem n p v.read_in)
        (record {
          order =
              span-add p.buffer p.read_pos n (sub32 p.count n) p.count v.read_in
                (ground (arith, v.fits));
          amount = length-span p.buffer p.read_pos n ∙ least;
          status = ground arith;
          valid = record {
            storage = v.storage;
            read_in = omega arith;
            fits = ground (arith, v.fits);
            write_at = ground (arith, v.fits, v.write_at);
            readers_word = v.readers_word;
            writers_word = v.writers_word;
          };
          ends = (refl, refl, refl);
        })
]

-- How many bytes a write of `wanted` bytes takes, where the pipe has a reader: all that fit, but a
-- write of up to PIPE_BUF bytes is not split.
abbrev pub accepted : Pipe → ℕ → ℕ
accepted p wanted =
    let space = pipe_capacity - p.count in
    if leb wanted pipe_buf && ltb space wanted then 0 else min wanted space

pub record Write (p : Pipe) (bytes : List ℕ) (wanted : ℕ) (out : PipeResult × Pipe) : Type 0 where
  pub status : out.0 ≡ (
      if p.readers == 0
      then broken
      else if accepted p wanted == 0
      then would_block
      else copied (accepted p wanted))
  pub order :
      contents out.1 ≡ contents p ++ (if p.readers == 0 then [] else take (accepted p wanted) bytes)
  pub valid : IsValid out.1
  pub ends : (out.1.readers ≡ p.readers) × (out.1.writers ≡ p.writers) × (out.1.used ≡ p.used)

nothing_accepted :
    (p : Pipe) (wanted : ℕ)
    → p.count ≤ pipe_capacity
    → (sub32 pipe_capacity p.count == 0
        || (leb wanted pipe_buf && ltb (sub32 pipe_capacity p.count) wanted))
      ≡ true
    → accepted p wanted ≡ 0
nothing_accepted p wanted fits h = ground arith

-- A write of `wanted` bytes, not 0, to a valid pipe appends the first `accepted` of them behind what
-- the pipe holds, and keeps the invariant. It accepts what fits; a write of at most PIPE_BUF bytes
-- is taken whole or not at all. With no reader it reports a broken pipe, with nothing accepted that
-- it would block, and then the pipe is as it was.
pub write_pipe-Write :
    (p : Pipe) (bytes : List ℕ) (wanted : ℕ)
    → IsValid p
    → wanted ≡ length bytes
    → 0 < wanted
    → Write p bytes wanted (write_pipe p bytes wanted)
unfolding write_pipe
write_pipe-Write p bytes wanted v e pos = elim (Bool-cases (p.readers == 0)) [
  | inl gone ↦ rw gone (record {
    status = ground arith;
    order = ground (arith, append-nil (contents p));
    valid = v;
    ends = (refl, refl, refl);
  })
  | inr reader ↦
      let space = sub32 pipe_capacity p.count in
      let room : space ≡ pipe_capacity - p.count = omega (arith, v.fits) in
      elim (Bool-cases (space == 0 || (leb wanted pipe_buf && ltb space wanted))) [
        | inl full ↦
            rw (reader, full)
              (record {
                status = ground arith;
                order =
                    ground (arith, append-nil (contents p), nothing_accepted p wanted v.fits full);
                valid = v;
                ends = (refl, refl, refl);
              })
        | inr open_space ↦
            let n = if ltb wanted space then wanted else space in
            let q = write_bytes (take n bytes) p in
            let taken : n ≡ accepted p wanted = ground arith in
            let some_taken : 0 < accepted p wanted = ground arith in
            let len : length (take n bytes) ≡ n = length-take_of_le n bytes (ground arith) in
            let w : Wrote p p.count (take n bytes) q =
              write_bytes-Wrote (take n bytes) p p.count v.storage v.read_in v.write_at
                (ground arith) in
            let total : add32 p.count n ≡ p.count + length (take n bytes) =
              ground (arith, v.fits) in
            let prefix : take n bytes
                ≡ (if p.readers == 0 then [] else take (accepted p wanted) bytes) =
              rw (reader, taken) in
            rw (reader, open_space)
              (record {
                status = ground arith;
                order =
                    ap₂ (span q.buffer) w.rest.0 total
                    ∙ w.bytes
                    ∙ ap (λ xs. contents p ++ xs) prefix;
                valid = record {
                  storage = w.storage;
                  read_in = omega (arith, w.rest.0, v.read_in);
                  fits = ground (arith, v.fits);
                  write_at = omega (arith, w.position, w.rest.0, total);
                  readers_word = omega (arith, w.rest.2, v.readers_word);
                  writers_word = omega (arith, w.rest.3, v.writers_word);
                };
                ends = (w.rest.2, w.rest.3, w.rest.4);
              })
      ]
]
