-- ===== src/Pipe/Table.antt =====
-- The table of pipes: every call keeps each slot valid, and a slot is in use exactly while one of its
-- ends is open.
use agentic_os_harness.Common.{
  ℕ, ◌+◌, ◌-◌, ◌<◌, ◌≡◌, refl, Bool, true, false, not, ◌&&◌, ◌||◌, Option, none, some, List, [],
  arith, ltb, ◌==◌, if_rule, length, length-set, set, All, All-set, All-get_or, All-replicate,
  length-replicate, u32_mod, ℤ, pos, negsuc,
}
use agentic_os_harness.Process.Types.{BlockReason}
use agentic_os_harness.Pipe.{
  Pipe, PipeResult, blank_pipe, pipe_init, pipe_at, max_pipes, pipe_capacity, pipe_handle_index,
  pipe_handle_is_read, pipe_create, create_at, find_unused, read_pipe, write_pipe, pipe_read,
  read_at, pipe_write, write_at, pipe_close, close_at, close_read, close_write, cleared,
  pipe_retain, retain_at,
}
use agentic_os_harness.Pipe.Ring.{IsValid}
use agentic_os_harness.Pipe.Stream.{read_pipe-Read, write_pipe-Write}
use agentic_os_harness.Common.{◌∙◌}

pub record IsSlot (p : Pipe) : Type 0 where
  pub ring : IsValid p
  pub in_use : p.used ≡ not (p.readers == 0 && p.writers == 0)

pub record IsTable (pipes : List Pipe) : Type 0 where
  pub slots : All IsSlot pipes
  pub size : length pipes ≡ max_pipes

blank_pipe-IsSlot : IsSlot blank_pipe
unfolding blank_pipe
blank_pipe-IsSlot = record {
  ring = record {
    storage = length-replicate {A = ℕ} pipe_capacity 0;
    read_in = omega arith;
    fits = omega arith;
    write_at = refl;
    readers_word = omega arith;
    writers_word = omega arith;
  };
  in_use = refl;
}

pub pipe_init-IsTable : IsTable pipe_init
unfolding pipe_init
pipe_init-IsTable = record {
  slots = All-replicate IsSlot max_pipes blank_pipe blank_pipe-IsSlot;
  size = length-replicate {A = Pipe} max_pipes blank_pipe;
}

pub set-IsTable :
    (pipes : List Pipe) (i : ℕ) (p : Pipe) → IsTable pipes → IsSlot p → IsTable (set pipes i p)
set-IsTable pipes i p t v = record {
  slots = All-set IsSlot pipes i p v t.slots;
  size = length-set pipes i p ∙ t.size;
}

pub pipe_at-IsSlot : (pipes : List Pipe) (i : ℕ) → IsTable pipes → IsSlot (pipe_at pipes i)
pipe_at-IsSlot pipes i t = All-get_or IsSlot pipes i blank_pipe blank_pipe-IsSlot t.slots

-- The ends of a valid ring may be recounted, with the flag to match.
recount :
    (p : Pipe) (r w : ℕ) (u : Bool)
    → IsValid p
    → r < u32_mod
    → w < u32_mod
    → IsValid (record p { readers = r; writers = w; used = u })
recount p r w u v hr hw = record {
  storage = v.storage;
  read_in = v.read_in;
  fits = v.fits;
  write_at = v.write_at;
  readers_word = hr;
  writers_word = hw;
}

read_pipe-IsSlot : (p : Pipe) (n : ℕ) → IsSlot p → IsSlot (read_pipe p n).2
read_pipe-IsSlot p n s =
    let r = read_pipe-Read p n s.ring in
    record { ring = r.valid; in_use = ground (arith, r.ends, s.in_use) }

write_pipe-IsSlot :
    (p : Pipe) (bytes : List ℕ) (n : ℕ)
    → IsSlot p
    → n ≡ length bytes
    → 0 < n
    → IsSlot (write_pipe p bytes n).1
write_pipe-IsSlot p bytes n s e h =
    let r = write_pipe-Write p bytes n s.ring e h in
    record { ring = r.valid; in_use = ground (arith, r.ends, s.in_use) }

cleared-IsSlot : (p : Pipe) → IsValid p → p.used ≡ true → IsSlot (cleared p)
cleared-IsSlot p v u =
    if_rule IsSlot (p.readers == 0 && p.writers == 0) blank_pipe p (λ e. blank_pipe-IsSlot)
      (λ e. record { ring = v; in_use = rw (u, e) })

-- A handle that is accepted names a slot in use.
pub handle_index-used :
    (pipes : List Pipe) (handle : ℤ) (i : ℕ)
    → pipe_handle_index pipes handle ≡ some i
    → ((pipe_at pipes i).used ≡ true) × (i < max_pipes)
unfolding pipe_handle_index
handle_index-used pipes (negsuc n) i e = absurd (cc)
handle_index-used pipes (pos h) i e = ground arith

pub create-IsTable :
    (outs : Bool) (pipes : List Pipe) → IsTable pipes → IsTable (pipe_create outs pipes).1
unfolding pipe_create
create-IsTable false pipes t = t
create-IsTable true pipes t = at (find_unused pipes max_pipes 0)
  where
    at : (o : Option ℕ) → IsTable (create_at pipes o).1
    at none = t
    at (some i) = set-IsTable pipes i _ t (record {
      ring = recount blank_pipe 1 1 true blank_pipe-IsSlot.ring (omega arith) (omega arith);
      in_use = refl;
    })

pub retain-IsTable :
    (pipes : List Pipe) (handle : ℤ) → IsTable pipes → IsTable (pipe_retain pipes handle).1
unfolding pipe_retain
retain-IsTable pipes handle t = at (pipe_handle_index pipes handle) refl
  where
    at : (o : Option ℕ) → pipe_handle_index pipes handle ≡ o → IsTable (retain_at pipes handle o).1
    at none e = t
    at (some i) e =
        let s = pipe_at-IsSlot pipes i t in
        let u = (handle_index-used pipes handle i e).0 in
        let Good = λ (out : PipeResult × List Pipe). IsTable out.1 in
        if_rule Good (pipe_handle_is_read handle) _ _
          (λ r.
            if_rule Good ((pipe_at pipes i).readers == u32_mod - 1) _ _ (λ full. t)
              (λ room. set-IsTable pipes i _ t (record {
                ring =
                    recount (pipe_at pipes i) ((pipe_at pipes i).readers + 1)
                      (pipe_at pipes i).writers (pipe_at pipes i).used s.ring
                      (ground (arith, s.ring.readers_word)) s.ring.writers_word;
                in_use = ground (arith, u);
              })))
          (λ r.
            if_rule Good ((pipe_at pipes i).writers == u32_mod - 1) _ _ (λ full. t)
              (λ room. set-IsTable pipes i _ t (record {
                ring =
                    recount (pipe_at pipes i) (pipe_at pipes i).readers
                      ((pipe_at pipes i).writers + 1) (pipe_at pipes i).used s.ring
                      s.ring.readers_word (ground (arith, s.ring.writers_word));
                in_use = ground (arith, u);
              })))

-- The table beside a result and the rest of the kernel stays valid.
abbrev ReadKept : {W : Type 0} → PipeResult × List ℕ × List Pipe × W → Type 0
ReadKept out = IsTable out.2

abbrev Kept : {W : Type 0} → PipeResult × List Pipe × W → Type 0
Kept out = IsTable out.1

module _ {W : Type 0} (wake : List Pipe → ℕ → BlockReason → W → W) where
  read_at-IsTable :
      (pipes : List Pipe) (o : Option ℕ) (n : ℕ) (w : W)
      → IsTable pipes
      → ReadKept (read_at wake pipes o n w)
  unfolding read_at
  read_at-IsTable pipes none n w t = t
  read_at-IsTable pipes (some i) n w t =
      if_rule ReadKept (n == 0) _ _ (λ nothing. t)
        (λ something.
          set-IsTable pipes i (read_pipe (pipe_at pipes i) n).2 t
            (read_pipe-IsSlot (pipe_at pipes i) n (pipe_at-IsSlot pipes i t)))

  pub read-IsTable :
      (pipes : List Pipe) (handle : ℤ) (buffer : Bool) (n : ℕ) (w : W)
      → IsTable pipes
      → ReadKept (pipe_read wake pipes handle buffer n w)
  unfolding pipe_read
  read-IsTable pipes handle buffer n w t =
      if_rule ReadKept (not (pipe_handle_is_read handle) || (not buffer && ltb 0 n)) _ _ (λ bad. t)
        (λ fine. read_at-IsTable pipes (pipe_handle_index pipes handle) n w t)

  write_at-IsTable :
      (pipes : List Pipe) (o : Option ℕ) (bytes : List ℕ) (n : ℕ) (w : W)
      → n ≡ length bytes
      → IsTable pipes
      → Kept (write_at wake pipes o bytes n w)
  unfolding write_at
  write_at-IsTable pipes none bytes n w e t = t
  write_at-IsTable pipes (some i) bytes n w e t =
      if_rule Kept (n == 0) _ _ (λ nothing. t)
        (λ something.
          set-IsTable pipes i (write_pipe (pipe_at pipes i) bytes n).1 t (
            write_pipe-IsSlot (pipe_at pipes i) bytes n (pipe_at-IsSlot pipes i t) e
              (ground arith)))

  -- The buffer, if there is one, holds the `n` bytes that the caller names.
  pub write-IsTable :
      (pipes : List Pipe) (handle : ℤ) (buffer : Option (List ℕ)) (n : ℕ) (w : W)
      → ((bytes : List ℕ) → buffer ≡ some bytes → n ≡ length bytes)
      → IsTable pipes
      → Kept (pipe_write wake pipes handle buffer n w)
  unfolding pipe_write
  write-IsTable pipes handle none n w e t =
      if_rule Kept (pipe_handle_is_read handle || ltb 0 n) _ _ (λ bad. t)
        (λ fine. write_at-IsTable pipes (pipe_handle_index pipes handle) [] n w (ground arith) t)
  write-IsTable pipes handle (some bytes) n w e t =
      if_rule Kept (pipe_handle_is_read handle) _ _ (λ bad. t)
        (λ fine. write_at-IsTable pipes (pipe_handle_index pipes handle) bytes n w (e bytes refl) t)

  close_read-IsTable :
      (pipes : List Pipe) (i : ℕ) (w : W)
      → (pipe_at pipes i).used ≡ true
      → IsTable pipes
      → Kept (close_read wake pipes i w)
  unfolding close_read
  close_read-IsTable pipes i w u t =
      let p = pipe_at pipes i in
      let v = (pipe_at-IsSlot pipes i t).ring in
      if_rule Kept (p.readers == 0) _ _ (λ gone. t)
        (λ some_reader. set-IsTable pipes i _ t (
          cleared-IsSlot (record p { readers = p.readers - 1 })
            (recount p (p.readers - 1) p.writers p.used v (omega (arith, v.readers_word))
              v.writers_word)
            u))

  close_write-IsTable :
      (pipes : List Pipe) (i : ℕ) (w : W)
      → (pipe_at pipes i).used ≡ true
      → IsTable pipes
      → Kept (close_write wake pipes i w)
  unfolding close_write
  close_write-IsTable pipes i w u t =
      let p = pipe_at pipes i in
      let v = (pipe_at-IsSlot pipes i t).ring in
      if_rule Kept (p.writers == 0) _ _ (λ gone. t)
        (λ some_writer. set-IsTable pipes i _ t (
          cleared-IsSlot (record p { writers = p.writers - 1 })
            (recount p p.readers (p.writers - 1) p.used v v.readers_word
              (omega (arith, v.writers_word)))
            u))

  close_at-IsTable :
      (pipes : List Pipe) (handle : ℤ) (o : Option ℕ) (w : W)
      → pipe_handle_index pipes handle ≡ o
      → IsTable pipes
      → Kept (close_at wake pipes handle o w)
  unfolding close_at
  close_at-IsTable pipes handle none w e t = t
  close_at-IsTable pipes handle (some i) w e t =
      let u = (handle_index-used pipes handle i e).0 in
      if_rule Kept (pipe_handle_is_read handle) _ _ (λ r. close_read-IsTable pipes i w u t)
        (λ r. close_write-IsTable pipes i w u t)

  pub close-IsTable :
      (pipes : List Pipe) (handle : ℤ) (w : W)
      → IsTable pipes
      → Kept (pipe_close wake pipes handle w)
  unfolding pipe_close
  close-IsTable pipes handle w t =
      close_at-IsTable pipes handle (pipe_handle_index pipes handle) w refl t
