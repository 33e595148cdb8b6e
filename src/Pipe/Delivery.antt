-- ===== src/Pipe/Delivery.antt =====
-- What comes out of a pipe is what went in: the bytes of both ends over any sequence of calls.
use agentic_os_harness.Common.{
  ℕ, ◌+◌, ◌-◌, ◌*◌, ◌/◌, ◌<◌, ◌≡◌, refl, sym, ap, ◌∙◌, true, false, some, List, [], ◌∷◌, ◌++◌,
  arith, ◌==◌, if◌then◌else◌, length, take, set, get_or-set, append_assoc, append-nil, ℤ, pos,
  Bool-cases, inl, inr,
}
use agentic_os_harness.Process.Types.{BlockReason}
use agentic_os_harness.Pipe.{
  Pipe, PipeResult, copied, would_block, broken, pipe_at, max_pipes, pipe_read, pipe_write, read_at,
  write_at, pipe_handle_base, pipe_handle_index, pipe_handle_is_read, read_pipe, write_pipe,
  blank_pipe,
}
use agentic_os_harness.Pipe.Ring.{contents}
use agentic_os_harness.Pipe.Stream.{read_pipe-Read, write_pipe-Write, accepted}
use agentic_os_harness.Pipe.Table.{IsTable, pipe_at-IsSlot, read-IsTable, write-IsTable}

abbrev pub read_end : ℕ → ℤ
read_end i = pos (pipe_handle_base + i * 2)

abbrev pub write_end : ℕ → ℤ
write_end i = pos (pipe_handle_base + i * 2 + 1)

-- The bytes of a write that the result reports as taken.
abbrev pub taken : PipeResult → List ℕ → List ℕ
taken (copied n) bytes = take n bytes
taken _ bytes = []

module _ (pipes : List Pipe) (i : ℕ) (inside : i < max_pipes)
    (open_slot : (pipe_at pipes i).used ≡ true) where
  read_end-index :
      (pipe_handle_index pipes (read_end i) ≡ some i) × (pipe_handle_is_read (read_end i) ≡ true)
  unfolding pipe_handle_index pipe_handle_is_read
  read_end-index =
      let half : (pipe_handle_base + i * 2 - pipe_handle_base) / 2 ≡ i = omega arith in
      (rw (half, open_slot) (ground arith), ground arith)

  write_end-index :
      (pipe_handle_index pipes (write_end i) ≡ some i) × (pipe_handle_is_read (write_end i) ≡ false)
  unfolding pipe_handle_index pipe_handle_is_read
  write_end-index =
      let half : (pipe_handle_base + i * 2 + 1 - pipe_handle_base) / 2 ≡ i = omega arith in
      (rw (half, open_slot) (ground arith), ground arith)

-- The slot after one call through an end of pipe `i`: still in use, with these bytes moved.
pub record Moved (pipes : List Pipe) (i : ℕ) (added removed : List ℕ) (pipes' : List Pipe)
    : Type 0 where
  pub order : contents (pipe_at pipes i) ++ added ≡ removed ++ contents (pipe_at pipes' i)
  pub still_open : (pipe_at pipes' i).used ≡ true

pipe_at-set :
    (pipes : List Pipe) (i : ℕ) (p : Pipe)
    → IsTable pipes
    → i < max_pipes
    → pipe_at (set pipes i p) i ≡ p
pipe_at-set pipes i p t h =
    ground (arith, get_or-set pipes i i p blank_pipe (omega (arith, t.size)))

Moved-set :
    (pipes : List Pipe) (i : ℕ) (added removed : List ℕ) (p : Pipe)
    → IsTable pipes
    → i < max_pipes
    → contents (pipe_at pipes i) ++ added ≡ removed ++ contents p
    → p.used ≡ true
    → Moved pipes i added removed (set pipes i p)
Moved-set pipes i added removed p t h order u =
    let e = pipe_at-set pipes i p t h in
    record {
      order = order ∙ ap (λ (q : Pipe). removed ++ contents q) (sym e);
      still_open = ap (λ (q : Pipe). q.used) e ∙ u;
    }

-- What a write reports is what it added.
taken-accepted :
    (p : Pipe) (bytes : List ℕ)
    → taken
        (if p.readers == 0
          then broken
          else if accepted p (length bytes) == 0
          then would_block
          else copied (accepted p (length bytes)))
        bytes
      ≡ (if p.readers == 0 then [] else take (accepted p (length bytes)) bytes)
taken-accepted p bytes = elim (Bool-cases (p.readers == 0)) [
  | inl gone ↦ rw gone
  | inr reader ↦ elim (Bool-cases (accepted p (length bytes) == 0)) [
    | inl none_fit ↦
        let e : accepted p (length bytes) ≡ 0 = ground arith in rw (reader, none_fit, e)
    | inr some_fit ↦ rw (reader, some_fit)
  ]
]

module _ {W : Type 0} (wake : List Pipe → ℕ → BlockReason → W → W) where
  read_end-Moved :
      (pipes : List Pipe) (i n : ℕ) (w : W)
      → IsTable pipes
      → i < max_pipes
      → (pipe_at pipes i).used ≡ true
      → let (r, bytes, pipes', w') = pipe_read wake pipes (read_end i) true n w in
        Moved pipes i [] bytes pipes'
  unfolding pipe_read read_at
  read_end-Moved pipes i n w t h u =
      let d = read_end-index pipes i h u in
      rw (d.1, d.0)
        (elim (Bool-cases (n == 0)) [
          | inl nothing ↦ rw nothing (record { order = append-nil _; still_open = u })
          | inr something ↦
              let p = pipe_at pipes i in
              let r = read_pipe-Read p n (pipe_at-IsSlot pipes i t).ring in
              rw something (
                Moved-set pipes i [] (read_pipe p n).1 (read_pipe p n).2 t h
                  (append-nil _ ∙ r.order) (r.ends.2 ∙ u))
        ])

  write_end-Moved :
      (pipes : List Pipe) (i : ℕ) (bytes : List ℕ) (w : W)
      → IsTable pipes
      → i < max_pipes
      → (pipe_at pipes i).used ≡ true
      → let (r, pipes', w') = pipe_write wake pipes (write_end i) (some bytes) (length bytes) w in
        Moved pipes i (taken r bytes) [] pipes'
  unfolding pipe_write write_at
  write_end-Moved pipes i bytes w t h u =
      let d = write_end-index pipes i h u in
      rw (d.1, d.0)
        (elim (Bool-cases (length bytes == 0)) [
          | inl nothing ↦ rw nothing (record { order = append-nil _; still_open = u })
          | inr something ↦
              let p = pipe_at pipes i in
              let r =
                write_pipe-Write p bytes (length bytes) (pipe_at-IsSlot pipes i t).ring refl
                  (ground arith) in
              rw something (
                Moved-set pipes i (taken (write_pipe p bytes (length bytes)).0 bytes) []
                  (write_pipe p bytes (length bytes)).1 t h
                  (ap (λ xs. contents p ++ xs)
                      (ap (λ x. taken x bytes) r.status ∙ taken-accepted p bytes)
                    ∙ sym r.order)
                  (r.ends.2 ∙ u))
        ])

-- A transfer through one end of the pipe.
pub data Transfer : Type 0 where
  receive : ℕ → Transfer
  send : List ℕ → Transfer

-- What a sequence of transfers took from the senders, gave to the receivers, and left.
pub record Log (W : Type 0) : Type 0 where
  pub sent : List ℕ
  pub received : List ℕ
  pub table : List Pipe
  pub kernel : W

module _ {W : Type 0} (wake : List Pipe → ℕ → BlockReason → W → W) (i : ℕ) where
  pub transfers : List Pipe → W → List Transfer → Log W
  transfers pipes w [] = record { sent = []; received = []; table = pipes; kernel = w }
  transfers pipes w (receive n ∷ ts) =
      let (r, bytes, pipes', w') = pipe_read wake pipes (read_end i) true n w in
      let log = transfers pipes' w' ts in record log { received = bytes ++ log.received }
  transfers pipes w (send bytes ∷ ts) =
      let (r, pipes', w') = pipe_write wake pipes (write_end i) (some bytes) (length bytes) w in
      let log = transfers pipes' w' ts in record log { sent = taken r bytes ++ log.sent }

  -- In a valid table with pipe `i` in use, whatever sequence of reads and writes passes through its
  -- two ends, and whatever the wake-ups do: the bytes that it held followed by those that the writes
  -- report as taken are the bytes that the reads returned followed by those that it holds at the end.
  -- So bytes are delivered in order, each once, and none is invented.
  pub transfers_in_order :
      (ts : List Transfer) (pipes : List Pipe) (w : W)
      → IsTable pipes
      → i < max_pipes
      → (pipe_at pipes i).used ≡ true
      → let log = transfers pipes w ts in
        contents (pipe_at pipes i) ++ log.sent ≡ log.received ++ contents (pipe_at log.table i)
  unfolding transfers
  transfers_in_order [] pipes w t h u = append-nil _
  transfers_in_order (receive n ∷ ts) pipes w t h u =
      let out = pipe_read wake pipes (read_end i) true n w in
      let m = read_end-Moved wake pipes i n w t h u in
      let log = transfers out.2 out.3 ts in
      let ih =
        transfers_in_order ts out.2 out.3 (read-IsTable wake pipes (read_end i) true n w t) h
          m.still_open in
      ap (λ xs. xs ++ log.sent) (sym (append-nil _) ∙ m.order)
      ∙ append_assoc out.1 (contents (pipe_at out.2 i)) log.sent
      ∙ ap (λ xs. out.1 ++ xs) ih
      ∙ sym (append_assoc out.1 log.received (contents (pipe_at log.table i)))
  transfers_in_order (send bytes ∷ ts) pipes w t h u =
      let out = pipe_write wake pipes (write_end i) (some bytes) (length bytes) w in
      let m = write_end-Moved wake pipes i bytes w t h u in
      let log = transfers out.1 out.2 ts in
      let ih =
        transfers_in_order ts out.1 out.2
          (write-IsTable wake pipes (write_end i) (some bytes) (length bytes) w
            (λ bs e. ground arith) t)
          h m.still_open in
      sym (append_assoc (contents (pipe_at pipes i)) (taken out.0 bytes) log.sent)
      ∙ ap (λ xs. xs ++ log.sent) m.order
      ∙ ih
