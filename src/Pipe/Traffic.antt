-- ===== src/Pipe/Traffic.antt =====
-- Sequences of calls on the table of pipes.
use agentic_os_harness.Common.{ℕ, Bool, some, List, [], ◌∷◌, arith, length, ℤ}
use agentic_os_harness.Process.Types.{BlockReason}
use agentic_os_harness.Pipe.{
  Pipe, pipe_init, pipe_read, pipe_write, pipe_create, pipe_close, pipe_retain,
}
use agentic_os_harness.Pipe.Table.{
  IsTable, pipe_init-IsTable, create-IsTable, retain-IsTable, read-IsTable, write-IsTable,
  close-IsTable,
}

-- A call of pipe.c. A write hands over the bytes of its buffer and their number.
pub data Call : Type 0 where
  create : Bool → Call
  retain close : ℤ → Call
  receive : ℤ → Bool → ℕ → Call
  send : ℤ → List ℕ → Call

module _ {W : Type 0} (wake : List Pipe → ℕ → BlockReason → W → W) where
  pub step : List Pipe × W → Call → List Pipe × W
  step (pipes, w) (create outs) = ((pipe_create outs pipes).1, w)
  step (pipes, w) (retain handle) = ((pipe_retain pipes handle).1, w)
  step (pipes, w) (close handle) =
      let (r, pipes', w') = pipe_close wake pipes handle w in (pipes', w')
  step (pipes, w) (receive handle buffer n) =
      let (r, bytes, pipes', w') = pipe_read wake pipes handle buffer n w in (pipes', w')
  step (pipes, w) (send handle bytes) =
      let (r, pipes', w') = pipe_write wake pipes handle (some bytes) (length bytes) w in
      (pipes', w')

  pub run : List Pipe × W → List Call → List Pipe × W
  run k [] = k
  run k (c ∷ cs) = run (step k c) cs

  step-IsTable : (k : List Pipe × W) (c : Call) → IsTable k.0 → IsTable (step k c).0
  unfolding step
  step-IsTable (pipes, w) (create outs) t = create-IsTable outs pipes t
  step-IsTable (pipes, w) (retain handle) t = retain-IsTable pipes handle t
  step-IsTable (pipes, w) (close handle) t = close-IsTable wake pipes handle w t
  step-IsTable (pipes, w) (receive handle buffer n) t = read-IsTable wake pipes handle buffer n w t
  step-IsTable (pipes, w) (send handle bytes) t =
      write-IsTable wake pipes handle (some bytes) (length bytes) w (λ bs e. ground arith) t

  run-IsTable : (cs : List Call) (k : List Pipe × W) → IsTable k.0 → IsTable (run k cs).0
  unfolding run
  run-IsTable [] k t = t
  run-IsTable (c ∷ cs) k t = run-IsTable cs (step k c) (step-IsTable k c t)

  -- From `pipe_init`, after any sequence of calls with any handles, each of the eight slots is a
  -- valid ring (both positions inside the buffer, at most 4096 bytes, the write position behind the
  -- last byte, no count of ends wrapped), and is in use exactly while one of its ends is open.
  pub pipes_stay-IsTable : (w : W) (cs : List Call) → IsTable (run (pipe_init, w) cs).0
  pipes_stay-IsTable w cs = run-IsTable cs (pipe_init, w) pipe_init-IsTable
