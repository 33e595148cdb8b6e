-- ===== src/Vm/Tests.antt =====
-- Runs of the code of kernel/vm.c.
use agentic_os_harness.Common.{◌≡◌, refl, ◌==◌, if◌then◌else◌, some, replicate}
use agentic_os_harness.Bitmap.{bitmap_test, test_bit}
use agentic_os_harness.Process.Types.{Process, blank_process}
use agentic_os_harness.Uaccess.{handled, guard}
use agentic_os_harness.Paging.{PageState, paging_get_physical_address}
use agentic_os_harness.Vm.{vm_handle_page_fault}
use agentic_os_harness.Common.{true, false}

-- A directory at 1 MB with one table, at 2 MB, for the user addresses from 1 GB on, and free frames
-- from 1 MB on.
abbrev one_table : PageState
one_table = record {
  words = λ x. if x == 1049600 then 2097159 else 2;
  active = 1048576;
  scratch = 0;
  frames = record {
    bitmap = replicate 128 0;
    refcounts = replicate 1024 0;
    total = 1024;
    used = 0;
    initialized = true;
  };
}

abbrev heap_owner : Process
heap_owner = record blank_process { cr3 = 1048576; heap_start = 1073741824; heap_end = 1073750016 }

-- A user read in the heap gets a page.
grows :
    let (result, s) = vm_handle_page_fault (some heap_owner) 1073741900 4 one_table in
    (result ≡ handled) × ((paging_get_physical_address 1073741900 s == 0) ≡ false)
unfolding vm_handle_page_fault blank_process bitmap_test test_bit replicate
grows = (refl, refl)

-- One below the stack stops at the guard page.
stops_at_guard :
    let (result, s) = vm_handle_page_fault (some heap_owner) 2952785000 4 one_table in
    result ≡ guard
unfolding vm_handle_page_fault blank_process
stops_at_guard = refl
