-- ===== src/Uaccess.antt =====
-- kernel/uaccess.c: the checks on user addresses, and the copies. Parameters are the flags of a page in
-- a directory (`paging_get_page_flags_in_directory` of kernel/paging.c), and
-- `vm_prepare_user_write_page` of kernel/vm.c over the state `V` of the page tables. User memory is a
-- byte for each address. A loop counts the pages, or the characters, that are left.
pub mod Ranges
pub mod Strings
mod Tests
use agentic_os_harness.Common.{
  ℕ, zero, suc, ◌+◌, ◌-◌, ◌*◌, ◌/◌, ◌%◌, Bool, true, false, not, ◌&&◌, ◌||◌, Option, none, some,
  List, [], ◌∷◌, ltb, leb, ◌==◌, if◌then◌else◌, add32, bit_and,
}
use agentic_os_harness.Process.Types.{Process}
use agentic_os_harness.Scheduler.{proc_at}
use agentic_os_harness.Process.Lookup.{process_get_current}
use agentic_os_harness.Common.{take, set}
use agentic_os_harness.Common.{bytes_from, store_bytes}

abbrev pub user_space_start : ℕ
user_space_start = 1073741824

abbrev pub user_space_end : ℕ
user_space_end = 3221225472

abbrev pub page_size : ℕ
page_size = 4096

-- What the functions return.
pub data UaccessResult : Type 0 where
  success efault enomem : UaccessResult

-- `enum vm_fault_result`
pub data VmFaultResult : Type 0 where
  fatal handled guard oom : VmFaultResult

unfoldable pub uaccess_range_valid : ℕ → ℕ → Bool
uaccess_range_valid address size =
    if size == 0
    then address == 0 || (leb user_space_start address && ltb address user_space_end)
    else if ltb address user_space_start || leb user_space_end address
    then false
    else let end_address = add32 address size in
      if ltb end_address address || ltb user_space_end end_address then false else true

-- The process that runs, if its directory is the active one.
active_of : List Process → ℕ → Option ℕ → Option ℕ
active_of procs directory none = none
active_of procs directory (some i) =
    let cr3 = (proc_at procs i).cr3 in if cr3 == 0 || not (cr3 == directory) then none else some i

unfoldable pub active_process_directory : List Process → ℕ → Option ℕ
unfolding active_of process_get_current
active_process_directory procs directory = active_of procs directory (process_get_current procs)

abbrev pub page_of : ℕ → ℕ
page_of address = address - address % page_size

-- From the page of the first byte to that of the last one.
abbrev pub page_count : ℕ → ℕ → ℕ
page_count address size = (page_of (add32 address size - 1) - page_of address) / page_size + 1

-- `(flags & (PAGE_PRESENT | PAGE_USER)) == (PAGE_PRESENT | PAGE_USER)`
abbrev pub user_page : ℕ → Bool
user_page flags = bit_and flags 5 == 5

pub pages_readable : (ℕ → ℕ) → ℕ → ℕ → Bool
pages_readable flags zero page = true
pages_readable flags (suc n) page =
    user_page (flags page) && pages_readable flags n (page + page_size)

readable_in : (ℕ → ℕ → ℕ) → List Process → Option ℕ → ℕ → ℕ → Bool
unfolding pages_readable
readable_in flags procs none address size = false
readable_in flags procs (some i) address size =
    pages_readable (flags (proc_at procs i).cr3) (page_count address size) (page_of address)

unfoldable pub uaccess_readable : (ℕ → ℕ → ℕ) → List Process → ℕ → ℕ → ℕ → Bool
unfolding uaccess_range_valid active_process_directory readable_in
uaccess_readable flags procs directory address size =
    if not (uaccess_range_valid address size)
    then false
    else if size == 0
    then true
    else readable_in flags procs (active_process_directory procs directory) address size

-- The bytes that are copied to `dest`; the flag says that `dest` is not NULL, `none` is UACCESS_EFAULT.
unfoldable pub copy_from_user :
    (ℕ → ℕ → ℕ) → List Process → ℕ → (ℕ → ℕ) → Bool → ℕ → ℕ → Option (List ℕ)
unfolding uaccess_readable
copy_from_user flags procs directory mem dest source size =
    if (not dest && ltb 0 size) || not (uaccess_readable flags procs directory source size)
    then none
    else some (bytes_from mem size source)

module _ {V : Type 0} (prepare : Process → ℕ → V → VmFaultResult × V) where
  -- The loop of `uaccess_prepare_write`.
  pub prepare_pages : ℕ → Process → ℕ → V → UaccessResult × V
  prepare_pages zero p page v = (success, v)
  prepare_pages (suc n) p page v =
      let (result, v') = prepare p page v in
      let rest = prepare_pages n p (page + page_size) v' in
      elim result [
        | handled ↦ rest
        | fatal ↦ (efault, v')
        | guard ↦ (efault, v')
        | oom ↦ (enomem, v')
      ]

  prepare_in : List Process → Option ℕ → ℕ → ℕ → V → UaccessResult × V
  unfolding prepare_pages
  prepare_in procs none address size v = (efault, v)
  prepare_in procs (some i) address size v =
      prepare_pages (page_count address size) (proc_at procs i) (page_of address) v

  unfoldable pub uaccess_prepare_write : List Process → ℕ → ℕ → ℕ → V → UaccessResult × V
  unfolding uaccess_range_valid active_process_directory prepare_in
  uaccess_prepare_write procs directory address size v =
      if not (uaccess_range_valid address size)
      then (efault, v)
      else if size == 0
      then (success, v)
      else prepare_in procs (active_process_directory procs directory) address size v

  -- `source` is what it points to, `none` for NULL.
  unfoldable pub copy_to_user :
      List Process → ℕ → (ℕ → ℕ) → ℕ → Option (List ℕ) → ℕ → V → UaccessResult × (ℕ → ℕ) × V
  unfolding uaccess_prepare_write
  copy_to_user procs directory mem dest none size v =
      if ltb 0 size
      then (efault, mem, v)
      else let (status, v') = uaccess_prepare_write procs directory dest size v in (status, mem, v')
  copy_to_user procs directory mem dest (some bytes) size v =
      let (status, v') = uaccess_prepare_write procs directory dest size v in
      elim status [
        | success ↦ (success, store_bytes mem dest (take size bytes), v')
        | other ↦ (other, mem, v')
      ]

-- The loop of `copy_string_from_user` over the characters that are left: whether a 0 was found, and
-- what was written to `dest`.
pub string_from : (ℕ → ℕ → ℕ) → List Process → ℕ → (ℕ → ℕ) → ℕ → ℕ → Option Bool × List ℕ
unfolding copy_from_user
string_from flags procs directory mem zero source = (some false, [])
string_from flags procs directory mem (suc n) source =
    let (found, rest) = string_from flags procs directory mem n (add32 source 1) in
    elim (copy_from_user flags procs directory mem true source 1) [
      | none ↦ (none, [])
      | some bytes ↦ if mem source == 0 then (some true, 0 ∷ []) else (found, mem source ∷ rest)
    ]

-- The end of `copy_string_from_user`.
string_result : ℕ → Option Bool × List ℕ → UaccessResult × List ℕ
string_result max_size (none, chars) = (efault, chars)
string_result max_size (some true, chars) = (success, chars)
string_result max_size (some false, chars) = (efault, set chars (max_size - 1) 0)

-- The flag says that `dest` is not NULL; the characters go there.
unfoldable pub copy_string_from_user :
    (ℕ → ℕ → ℕ) → List Process → ℕ → (ℕ → ℕ) → Bool → ℕ → ℕ → UaccessResult × List ℕ
unfolding string_from string_result
copy_string_from_user flags procs directory mem dest source max_size =
    if not dest || max_size == 0
    then (efault, [])
    else string_result max_size (string_from flags procs directory mem max_size source)
