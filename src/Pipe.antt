-- ===== src/Pipe.antt =====
-- kernel/pipe.c and include/pipe.h: the table of pipes, each a ring of 4096 bytes with a count of
-- readers and one of writers. `process_wake_pipe_waiter` is the section's parameter `wake`: it is
-- given the table as it stands at the call, and changes the rest of the kernel, `W`.
pub mod Ring
pub mod Stream
pub mod Table
pub mod Traffic
pub mod Delivery
pub mod World
mod Tests
use agentic_os_harness.Common.{
  ℕ, zero, suc, ◌+◌, ◌-◌, ◌*◌, ◌/◌, ◌%◌, ◌^◌, Bool, true, false, not, ◌&&◌, ◌||◌, Option, none,
  some, List, [], ◌∷◌, ltb, leb, ◌==◌, if◌then◌else◌, get_or, set, take, replicate, add32, sub32,
  u32_mod, ℤ, pos, negsuc,
}
use agentic_os_harness.Process.Types.{BlockReason, block_pipe_read, block_pipe_write}

abbrev pub max_pipes : ℕ
max_pipes = 8

abbrev pub pipe_capacity : ℕ
pipe_capacity = 4096

abbrev pub pipe_buf : ℕ
pipe_buf = 512

abbrev pub pipe_handle_base : ℕ
pipe_handle_base = 256

-- `struct pipe`
pub record Pipe : Type 0 where
  pub buffer : List ℕ
  pub read_pos : ℕ
  pub write_pos : ℕ
  pub count : ℕ
  pub readers : ℕ
  pub writers : ℕ
  pub used : Bool

-- What the functions return: a count that is not negative, or PIPE_EBADF, PIPE_WOULD_BLOCK or
-- PIPE_BROKEN. PIPE_SUCCESS is the count 0.
pub data PipeResult : Type 0 where
  copied : ℕ → PipeResult
  ebadf would_block broken : PipeResult

-- All bytes 0.
pub blank_pipe : Pipe
blank_pipe = record {
  buffer = replicate pipe_capacity 0;
  read_pos = 0;
  write_pos = 0;
  count = 0;
  readers = 0;
  writers = 0;
  used = false;
}

pub pipe_init : List Pipe
unfolding blank_pipe
pipe_init = replicate max_pipes blank_pipe

-- `pipes[index]`
abbrev pub pipe_at : List Pipe → ℕ → Pipe
pipe_at pipes index = get_or pipes index blank_pipe

-- `none` is -1. A handle of PIPE_HANDLE_BASE or more leaves no negative index.
unfoldable pub pipe_handle_index : List Pipe → ℤ → Option ℕ
pipe_handle_index pipes (negsuc n) = none
pipe_handle_index pipes (pos h) =
    if ltb h pipe_handle_base
    then none
    else let index = (h - pipe_handle_base) / 2 in
      if leb max_pipes index || not (pipe_at pipes index).used then none else some index

unfoldable pub pipe_handle_is_read : ℤ → Bool
pipe_handle_is_read (negsuc n) = false
pipe_handle_is_read (pos h) = leb pipe_handle_base h && (h - pipe_handle_base) % 2 == 0

-- The loop of `pipe_create`: the first unused slot among `n` from `i` on.
pub find_unused : List Pipe → ℕ → ℕ → Option ℕ
find_unused pipes zero i = none
find_unused pipes (suc n) i = elim ((pipe_at pipes i).used) [
  | true ↦ find_unused pipes n (i + 1)
  | false ↦ some i
]

-- The two handles that go out through the pointers; `none` is PIPE_EBADF.
create_at : List Pipe → Option ℕ → Option (ℕ × ℕ) × List Pipe
unfolding blank_pipe
create_at pipes none = (none, pipes)
create_at pipes (some i) = (
  some (pipe_handle_base + i * 2, pipe_handle_base + i * 2 + 1),
  set pipes i (record blank_pipe { used = true; readers = 1; writers = 1 }),
)

-- The flag says that neither pointer is NULL.
unfoldable pub pipe_create : Bool → List Pipe → Option (ℕ × ℕ) × List Pipe
unfolding find_unused create_at
pipe_create outs pipes =
    if not outs then (none, pipes) else create_at pipes (find_unused pipes max_pipes 0)

-- The loop of `pipe_read`, and the bytes that it copies out.
pub read_bytes : ℕ → Pipe → List ℕ × Pipe
read_bytes zero p = ([], p)
read_bytes (suc n) p =
    let (bytes, p') = read_bytes n (record p { read_pos = (p.read_pos + 1) % pipe_capacity }) in
    (get_or p.buffer p.read_pos 0 ∷ bytes, p')

-- The loop of `pipe_write` over the bytes that it copies in.
pub write_bytes : List ℕ → Pipe → Pipe
write_bytes [] p = p
write_bytes (b ∷ bs) p = write_bytes bs (record p {
  buffer = set p.buffer p.write_pos b;
  write_pos = (p.write_pos + 1) % pipe_capacity;
})

-- `pipe_read` behind its guards: what it returns, the bytes and the pipe afterwards.
unfoldable pub read_pipe : Pipe → ℕ → PipeResult × List ℕ × Pipe
unfolding read_bytes
read_pipe p count =
    if p.count == 0
    then (if p.writers == 0 then copied 0 else would_block, [], p)
    else let n = if ltb count p.count then count else p.count in
      let (bytes, p') = read_bytes n p in (copied n, bytes, record p' { count = sub32 p.count n })

-- `pipe_write` behind its guards.
unfoldable pub write_pipe : Pipe → List ℕ → ℕ → PipeResult × Pipe
unfolding write_bytes
write_pipe p bytes count =
    if p.readers == 0
    then (broken, p)
    else let space = sub32 pipe_capacity p.count in
      if space == 0 || (leb count pipe_buf && ltb space count)
      then (would_block, p)
      else let n = if ltb count space then count else space in
        let p' = write_bytes (take n bytes) p in (copied n, record p' { count = add32 p.count n })

-- `pipe_close` clears the pipe when neither end is left.
abbrev pub cleared : Pipe → Pipe
cleared p = if p.readers == 0 && p.writers == 0 then blank_pipe else p

module _ {W : Type 0} (wake : List Pipe → ℕ → BlockReason → W → W) where
  -- Calls `wake` after a transfer, on the table that holds the new pipe.
  abbrev wake_after : PipeResult → List Pipe → ℕ → BlockReason → W → W
  wake_after (copied zero) pipes index reason w = w
  wake_after (copied (suc n)) pipes index reason w = wake pipes index reason w
  wake_after _ pipes index reason w = w

  read_at : List Pipe → Option ℕ → ℕ → W → PipeResult × List ℕ × List Pipe × W
  unfolding read_pipe
  read_at pipes none count w = (ebadf, [], pipes, w)
  read_at pipes (some index) count w =
      if count == 0
      then (copied 0, [], pipes, w)
      else let (r, bytes, p) = read_pipe (pipe_at pipes index) count in
        let pipes' = set pipes index p in
        (r, bytes, pipes', wake_after r pipes' index block_pipe_write w)

  -- The bytes go to `buffer`; the flag says that `buffer` is not NULL.
  unfoldable pub pipe_read : List Pipe → ℤ → Bool → ℕ → W → PipeResult × List ℕ × List Pipe × W
  unfolding read_at
  pipe_read pipes handle buffer count w =
      if not (pipe_handle_is_read handle) || (not buffer && ltb 0 count)
      then (ebadf, [], pipes, w)
      else read_at pipes (pipe_handle_index pipes handle) count w

  write_at : List Pipe → Option ℕ → List ℕ → ℕ → W → PipeResult × List Pipe × W
  unfolding write_pipe
  write_at pipes none bytes count w = (ebadf, pipes, w)
  write_at pipes (some index) bytes count w =
      if count == 0
      then (copied 0, pipes, w)
      else let (r, p) = write_pipe (pipe_at pipes index) bytes count in
        let pipes' = set pipes index p in (r, pipes', wake_after r pipes' index block_pipe_read w)

  -- `bytes` is what `buffer` points to, `none` for NULL.
  unfoldable pub pipe_write : List Pipe → ℤ → Option (List ℕ) → ℕ → W → PipeResult × List Pipe × W
  unfolding write_at
  pipe_write pipes handle none count w =
      if pipe_handle_is_read handle || ltb 0 count
      then (ebadf, pipes, w)
      else write_at pipes (pipe_handle_index pipes handle) [] count w
  pipe_write pipes handle (some bytes) count w =
      if pipe_handle_is_read handle
      then (ebadf, pipes, w)
      else write_at pipes (pipe_handle_index pipes handle) bytes count w

  close_read : List Pipe → ℕ → W → PipeResult × List Pipe × W
  close_read pipes index w =
      let p = pipe_at pipes index in
      if p.readers == 0
      then (ebadf, pipes, w)
      else let p' = record p { readers = p.readers - 1 } in
        let w' =
          if p'.readers == 0 then wake (set pipes index p') index block_pipe_write w else w in
        (copied 0, set pipes index (cleared p'), w')

  close_write : List Pipe → ℕ → W → PipeResult × List Pipe × W
  close_write pipes index w =
      let p = pipe_at pipes index in
      if p.writers == 0
      then (ebadf, pipes, w)
      else let p' = record p { writers = p.writers - 1 } in
        let w' = if p'.writers == 0 then wake (set pipes index p') index block_pipe_read w else w in
        (copied 0, set pipes index (cleared p'), w')

  close_at : List Pipe → ℤ → Option ℕ → W → PipeResult × List Pipe × W
  unfolding close_read close_write
  close_at pipes handle none w = (ebadf, pipes, w)
  close_at pipes handle (some index) w =
      if pipe_handle_is_read handle then close_read pipes index w else close_write pipes index w

  unfoldable pub pipe_close : List Pipe → ℤ → W → PipeResult × List Pipe × W
  unfolding close_at
  pipe_close pipes handle w = close_at pipes handle (pipe_handle_index pipes handle) w

retain_at : List Pipe → ℤ → Option ℕ → PipeResult × List Pipe
retain_at pipes handle none = (ebadf, pipes)
retain_at pipes handle (some index) =
    let p = pipe_at pipes index in
    if pipe_handle_is_read handle
    then (if p.readers == u32_mod - 1
        then (ebadf, pipes)
        else (copied 0, set pipes index (record p { readers = p.readers + 1 })))
    else if p.writers == u32_mod - 1
    then (ebadf, pipes)
    else (copied 0, set pipes index (record p { writers = p.writers + 1 }))

unfoldable pub pipe_retain : List Pipe → ℤ → PipeResult × List Pipe
unfolding retain_at
pipe_retain pipes handle = retain_at pipes handle (pipe_handle_index pipes handle)
