-- ===== src/Uaccess/Ranges.antt =====
-- What the checks of kernel/uaccess.c let through.
use agentic_os_harness.Common.{
  ℕ, zero, suc, ◌+◌, ◌-◌, ◌*◌, ◌/◌, ◌≤◌, ◌<◌, ◌≡◌, ◌↔◌, true, arith, u32_mod,
}
use agentic_os_harness.Uaccess.{
  user_space_start, user_space_end, page_size, uaccess_range_valid, page_of, page_count, user_page,
  pages_readable,
}
use agentic_os_harness.Common.{List, Option, none, some}
use agentic_os_harness.Process.Types.{Process}
use agentic_os_harness.Scheduler.{proc_at}
use agentic_os_harness.Uaccess.{readable_in, uaccess_readable, active_process_directory}
use agentic_os_harness.Common.{refl}

-- A range of 32-bit addresses, not empty, that lies in user space.
abbrev pub InUserSpace : ℕ → ℕ → Type 0
InUserSpace address size = (user_space_start ≤ address) × (address + size ≤ user_space_end)

-- Of 32-bit values, `uaccess_range_valid` accepts a range that is not empty exactly if it lies in user
-- space without wrapping around.
pub uaccess_range_valid-InUserSpace :
    (address size : ℕ)
    → address < u32_mod
    → size < u32_mod
    → 0 < size
    → (uaccess_range_valid address size ≡ true) ↔ InUserSpace address size
unfolding uaccess_range_valid
uaccess_range_valid-InUserSpace address size a s p = ground arith

-- Every page of the walk has the flags.
pages_readable-all :
    (flags : ℕ → ℕ) (n page : ℕ)
    → pages_readable flags n page ≡ true
    → (i : ℕ) → i < n
    → user_page (flags (page + i * page_size)) ≡ true
unfolding pages_readable
pages_readable-all flags zero page e i h = absurd (omega arith)
pages_readable-all flags (suc n) page e zero h =
    let here : page + 0 * page_size ≡ page = omega arith in rw here (ground arith)
pages_readable-all flags (suc n) page e (suc i) h =
    let next : page + suc i * page_size ≡ (page + page_size) + i * page_size = omega arith in
    rw next (pages_readable-all flags n (page + page_size) (ground arith) i (omega arith))

page_index :
    (address size x : ℕ)
    → address ≤ x
    → x < address + size
    → address + size ≤ user_space_end
    → (i : ℕ) × (i < page_count address size) × (page_of address + i * page_size ≡ page_of x)
page_index address size x a b c =
    ((page_of x - page_of address) / page_size, omega arith, omega arith)

-- The directory of the process that runs has the user flags on the page of `x`.
pub record ReadableAt (flags : ℕ → ℕ → ℕ) (procs : List Process) (directory x : ℕ) : Type 0 where
  pub slot : ℕ
  pub active : active_process_directory procs directory ≡ some slot
  pub mapped : user_page (flags (proc_at procs slot).cr3 (page_of x)) ≡ true

readable_in-ReadableAt :
    (flags : ℕ → ℕ → ℕ) (procs : List Process) (directory address size x : ℕ) (o : Option ℕ)
    → active_process_directory procs directory ≡ o
    → readable_in flags procs o address size ≡ true
    → address + size ≤ user_space_end
    → address ≤ x
    → x < address + size
    → ReadableAt flags procs directory x
unfolding readable_in
readable_in-ReadableAt flags procs directory address size x none e r c a b = absurd (cc)
readable_in-ReadableAt flags procs directory address size x (some i) e r c a b =
    let page = page_index address size x a b c in
    record {
      slot = i;
      active = e;
      mapped = rw (← page.2) (
          pages_readable-all (flags (proc_at procs i).cr3) (page_count address size)
            (page_of address) r page.0 page.1);
    }

-- Where `uaccess_readable` accepts a range of 32-bit values, every byte of it lies in user space and
-- on a page that the directory of the running process maps for the user.
pub uaccess_readable-ReadableAt :
    (flags : ℕ → ℕ → ℕ) (procs : List Process) (directory address size : ℕ)
    → address < u32_mod
    → size < u32_mod
    → uaccess_readable flags procs directory address size ≡ true
    → (x : ℕ) → address ≤ x
    → x < address + size
    → (user_space_start ≤ x) × (x < user_space_end) × ReadableAt flags procs directory x
unfolding uaccess_readable
uaccess_readable-ReadableAt flags procs directory address size aw sw r x a b =
    let valid : uaccess_range_valid address size ≡ true = ground (arith, r) in
    let inside =
      (uaccess_range_valid-InUserSpace address size aw sw (omega (arith, a, b))).0 valid in
    let walked : readable_in flags procs (active_process_directory procs directory) address size
        ≡ true =
      ground (arith, r, a, b) in
    (
      omega (arith, inside.0),
      omega (arith, inside.1),
      readable_in-ReadableAt flags procs directory address size x
          (active_process_directory procs directory) refl walked inside.1 a b,
    )
