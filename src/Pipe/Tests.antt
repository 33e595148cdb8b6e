-- ===== src/Pipe/Tests.antt =====
-- Runs of kernel/pipe.c.
use agentic_os_harness.Common.{ℕ, ◌≡◌, refl, true, List, [], ◌∷◌, ◌++◌, arith, pos, some, replicate}
use agentic_os_harness.Process.Types.{BlockReason}
use agentic_os_harness.Pipe.{Pipe, pipe_init, pipe_at, pipe_create, read_pipe, write_pipe}
use agentic_os_harness.Pipe.Ring.{contents}
use agentic_os_harness.Pipe.Stream.{Read, read_pipe-Read, Write, write_pipe-Write}
use agentic_os_harness.Pipe.Table.{IsTable, create-IsTable, pipe_init-IsTable, pipe_at-IsSlot}
use agentic_os_harness.Pipe.Traffic.{pipes_stay-IsTable, run, create, send, receive, close}
use agentic_os_harness.Pipe.Delivery.{transfers, transfers_in_order, Transfer}

-- A kernel that records the wake-ups that it is asked for.
abbrev note_wake : List Pipe → ℕ → BlockReason → List ℕ → List ℕ
note_wake pipes index reason log = log ++ (index ∷ [])

abbrev one_pipe : List Pipe
one_pipe = (pipe_create true pipe_init).1

one_pipe-IsTable : IsTable one_pipe
one_pipe-IsTable = create-IsTable true pipe_init pipe_init-IsTable

created_handles : (pipe_create true pipe_init).0 ≡ some (256, 257)
unfolding pipe_create pipe_init replicate
created_handles = refl

abbrev hello : List ℕ
hello = 104 ∷ 101 ∷ 108 ∷ 108 ∷ 111 ∷ []

pipes_stay-IsTable_example :
    IsTable
      (run note_wake
        (pipe_init, [])
        (create true ∷ send (pos 257) hello ∷ receive (pos 256) true 3 ∷ close (pos 257) ∷ [])).0
pipes_stay-IsTable_example =
    pipes_stay-IsTable note_wake []
      (create true ∷ send (pos 257) hello ∷ receive (pos 256) true 3 ∷ close (pos 257) ∷ [])

read_pipe-Read_example : Read (pipe_at one_pipe 0) 5 (read_pipe (pipe_at one_pipe 0) 5)
read_pipe-Read_example =
    read_pipe-Read (pipe_at one_pipe 0) 5 (pipe_at-IsSlot one_pipe 0 one_pipe-IsTable).ring

write_pipe-Write_example :
    Write (pipe_at one_pipe 0) hello 5 (write_pipe (pipe_at one_pipe 0) hello 5)
write_pipe-Write_example =
    write_pipe-Write (pipe_at one_pipe 0) hello 5 (pipe_at-IsSlot one_pipe 0 one_pipe-IsTable).ring
      refl (omega arith)

transfers_in_order_example :
    let log =
      transfers note_wake 0 one_pipe []
        (Transfer.send hello ∷ Transfer.receive 3 ∷ Transfer.receive 9 ∷ []) in
    contents (pipe_at one_pipe 0) ++ log.sent ≡ log.received ++ contents (pipe_at log.table 0)
unfolding pipe_create pipe_init replicate
transfers_in_order_example =
    transfers_in_order note_wake 0
      (Transfer.send hello ∷ Transfer.receive 3 ∷ Transfer.receive 9 ∷ []) one_pipe []
      one_pipe-IsTable (omega arith) refl
