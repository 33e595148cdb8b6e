-- ===== src/Process/Markers.antt =====
-- The one-shot permissions for test markers in kernel/process.c: two words of 64 bits.
use agentic_os_harness.Common.{
  ℕ, ◌-◌, ◌*◌, ◌/◌, ◌%◌, ◌^◌, Bool, true, false, not, ◌||◌, ltb, ◌==◌, if◌then◌else◌, get_or, set,
  replicate, bit_and, bit_or, u64_mod,
}
use agentic_os_harness.Process.Types.{Process}

abbrev pub process_test_marker_words : ℕ
process_test_marker_words = 2

abbrev pub marker_valid : ℕ → Bool
marker_valid marker = not (marker == 0 || ltb (process_test_marker_words * 64) marker)

abbrev pub marker_word : ℕ → ℕ
marker_word marker = (marker - 1) / 64

abbrev pub permission : ℕ → ℕ
permission marker = 2 ^ ((marker - 1) % 64)

unfoldable pub process_allow_test_marker : Process → ℕ → Bool × Process
process_allow_test_marker p marker =
    if not (marker_valid marker)
    then (false, p)
    else let old = get_or p.test_marker_permissions (marker_word marker) 0 in
      (
        true,
        record p {
          test_marker_permissions =
              set p.test_marker_permissions (marker_word marker) (bit_or old (permission marker));
        },
      )

unfoldable pub process_consume_test_marker : Process → ℕ → Bool × Process
process_consume_test_marker p marker =
    let old = get_or p.test_marker_permissions (marker_word marker) 0 in
    if not (marker_valid marker) || bit_and old (permission marker) == 0 then (false, p) else (
      true,
      record p {
        test_marker_permissions =
            set p.test_marker_permissions (marker_word marker)
              (bit_and old (u64_mod - 1 - permission marker));
      },
    )

unfoldable pub process_clear_test_markers : Process → Process
process_clear_test_markers p = record p {
  test_marker_permissions = replicate process_test_marker_words 0;
}
