-- ===== src/Uaccess/Tests.antt =====
-- Runs of kernel/uaccess.c.
use agentic_os_harness.Common.{ℕ, ◌≡◌, ◌<◌, ◌≤◌, ◌↔◌, refl, true, List, [], ◌∷◌, arith}
use agentic_os_harness.Process.Types.{Process, blank_process, running}
use agentic_os_harness.Process.Lookup.{process_get_current, first_slot}
use agentic_os_harness.Uaccess.{
  uaccess_range_valid, uaccess_readable, active_process_directory, active_of, readable_in,
  pages_readable, user_space_start, user_space_end,
}
use agentic_os_harness.Uaccess.Ranges.{
  InUserSpace, uaccess_range_valid-InUserSpace, ReadableAt, uaccess_readable-ReadableAt,
}
use agentic_os_harness.Common.{length, if◌then◌else◌, ◌==◌}
use agentic_os_harness.Uaccess.{
  copy_string_from_user, string_from, string_result, copy_from_user, success,
}
use agentic_os_harness.Uaccess.Strings.{IsString, copy_string_from_user-IsString}

uaccess_range_valid-InUserSpace_example :
    (uaccess_range_valid 1073745000 5000 ≡ true) ↔ InUserSpace 1073745000 5000
uaccess_range_valid-InUserSpace_example =
    uaccess_range_valid-InUserSpace 1073745000 5000 (omega arith) (omega arith) (omega arith)

abbrev table : List Process
table = record blank_process { pid = 1; state = running; cr3 = 8192 } ∷ []

-- Every page is mapped for the user.
abbrev all_pages : ℕ → ℕ → ℕ
all_pages directory page = 7

two_pages : uaccess_readable all_pages table 8192 1073745000 5000 ≡ true
unfolding uaccess_readable uaccess_range_valid active_process_directory active_of readable_in
    pages_readable process_get_current first_slot
two_pages = refl

uaccess_readable-ReadableAt_example :
    (user_space_start ≤ 1073746000)
    × (1073746000 < user_space_end)
    × ReadableAt all_pages table 8192 1073746000
uaccess_readable-ReadableAt_example =
    uaccess_readable-ReadableAt all_pages table 8192 1073745000 5000 (omega arith) (omega arith)
      two_pages 1073746000 (omega arith) (omega arith)

abbrev letter : ℕ → ℕ
letter address = if address == 1073745000 then 97 else 0

letter_copied : (copy_string_from_user all_pages table 8192 letter true 1073745000 8).0 ≡ success
unfolding copy_string_from_user string_from string_result copy_from_user uaccess_readable
    uaccess_range_valid active_process_directory active_of readable_in pages_readable
    process_get_current first_slot
letter_copied = refl

copy_string_from_user-IsString_example :
    IsString letter 1073745000
      (copy_string_from_user all_pages table 8192 letter true 1073745000 8).1
    × (length (copy_string_from_user all_pages table 8192 letter true 1073745000 8).1 ≤ 8)
copy_string_from_user-IsString_example =
    copy_string_from_user-IsString all_pages table 8192 letter true 1073745000 8 letter_copied
