-- ===== src/Pipe/World.antt =====
-- The rest of the kernel changes in `pipe_close` through `process_wake_pipe_waiter` only.
use agentic_os_harness.Common.{ℕ, ◌==◌, Option, none, some, List, set, if_rule, ℤ}
use agentic_os_harness.Process.Types.{BlockReason, block_pipe_read, block_pipe_write}
use agentic_os_harness.Pipe.{
  Pipe, PipeResult, pipe_at, pipe_handle_index, pipe_handle_is_read, close_read, close_write,
  close_at, pipe_close,
}
use agentic_os_harness.Common.{◌-◌}

module _ {W : Type 0} (wake : List Pipe → ℕ → BlockReason → W → W) (P : W → Type 0)
    (keeps : (pipes : List Pipe) (i : ℕ) (reason : BlockReason) (w : W)
      → P w
      → P (wake pipes i reason w)) where
  close_read-keeps : (pipes : List Pipe) (i : ℕ) (w : W) → P w → P (close_read wake pipes i w).2
  unfolding close_read
  close_read-keeps pipes i w h =
      let p = pipe_at pipes i in
      let p' = record p { readers = p.readers - 1 } in
      if_rule (λ (r : PipeResult × List Pipe × W). P r.2) (p.readers == 0) _ _ (λ e. h)
        (λ e.
          if_rule P (p'.readers == 0) (wake (set pipes i p') i block_pipe_write w) w
            (λ z. keeps (set pipes i p') i block_pipe_write w h) (λ z. h))

  close_write-keeps : (pipes : List Pipe) (i : ℕ) (w : W) → P w → P (close_write wake pipes i w).2
  unfolding close_write
  close_write-keeps pipes i w h =
      let p = pipe_at pipes i in
      let p' = record p { writers = p.writers - 1 } in
      if_rule (λ (r : PipeResult × List Pipe × W). P r.2) (p.writers == 0) _ _ (λ e. h)
        (λ e.
          if_rule P (p'.writers == 0) (wake (set pipes i p') i block_pipe_read w) w
            (λ z. keeps (set pipes i p') i block_pipe_read w h) (λ z. h))

  close_at-keeps :
      (pipes : List Pipe) (handle : ℤ) (o : Option ℕ) (w : W)
      → P w
      → P (close_at wake pipes handle o w).2
  unfolding close_at
  close_at-keeps pipes handle none w h = h
  close_at-keeps pipes handle (some i) w h =
      if_rule (λ (r : PipeResult × List Pipe × W). P r.2) (pipe_handle_is_read handle) _ _
        (λ e. close_read-keeps pipes i w h) (λ e. close_write-keeps pipes i w h)

  pub pipe_close-keeps :
      (pipes : List Pipe) (handle : ℤ) (w : W) → P w → P (pipe_close wake pipes handle w).2
  unfolding pipe_close
  pipe_close-keeps pipes handle w h =
      close_at-keeps pipes handle (pipe_handle_index pipes handle) w h
