-- ===== src/Interrupts/Exceptions.antt =====
-- The handlers of the CPU exceptions, src/interrupts/handlers.rs. A handler returns to the interrupted
-- code, or panics; the machine is kept in both cases.
use my_kernel.Interrupts.{Machine, record_vector}
use my_kernel.Interrupts.Vectors.{
  exception_alignment_check, exception_bound_range, exception_breakpoint, exception_debug,
  exception_device_not_avail, exception_divide_error, exception_double_fault,
  exception_general_protection, exception_invalid_opcode, exception_invalid_tss,
  exception_machine_check, exception_nmi, exception_overflow, exception_page_fault,
  exception_segment_not_present, exception_simd_fp, exception_stack_segment,
  exception_virtualization, exception_x87_fp,
}

pub data Handled : Type 0 where
  returned panicked : Machine → Handled

unfoldable pub divide_error_handler : Machine → Handled
unfolding record_vector
divide_error_handler m = panicked (record_vector m exception_divide_error)

unfoldable pub debug_handler : Machine → Handled
unfolding record_vector
debug_handler m = returned (record_vector m exception_debug)

unfoldable pub nmi_handler : Machine → Handled
unfolding record_vector
nmi_handler m = panicked (record_vector m exception_nmi)

unfoldable pub breakpoint_handler : Machine → Handled
unfolding record_vector
breakpoint_handler m = returned (record_vector m exception_breakpoint)

unfoldable pub overflow_handler : Machine → Handled
unfolding record_vector
overflow_handler m = returned (record_vector m exception_overflow)

unfoldable pub bound_range_handler : Machine → Handled
unfolding record_vector
bound_range_handler m = panicked (record_vector m exception_bound_range)

unfoldable pub invalid_opcode_handler : Machine → Handled
unfolding record_vector
invalid_opcode_handler m = panicked (record_vector m exception_invalid_opcode)

unfoldable pub device_not_available_handler : Machine → Handled
unfolding record_vector
device_not_available_handler m = panicked (record_vector m exception_device_not_avail)

unfoldable pub double_fault_handler : Machine → Handled
unfolding record_vector
double_fault_handler m = panicked (record_vector m exception_double_fault)

unfoldable pub invalid_tss_handler : Machine → Handled
unfolding record_vector
invalid_tss_handler m = panicked (record_vector m exception_invalid_tss)

unfoldable pub segment_not_present_handler : Machine → Handled
unfolding record_vector
segment_not_present_handler m = panicked (record_vector m exception_segment_not_present)

unfoldable pub stack_segment_handler : Machine → Handled
unfolding record_vector
stack_segment_handler m = panicked (record_vector m exception_stack_segment)

unfoldable pub general_protection_handler : Machine → Handled
unfolding record_vector
general_protection_handler m = panicked (record_vector m exception_general_protection)

unfoldable pub page_fault_handler : Machine → Handled
unfolding record_vector
page_fault_handler m = panicked (record_vector m exception_page_fault)

unfoldable pub x87_fp_handler : Machine → Handled
unfolding record_vector
x87_fp_handler m = panicked (record_vector m exception_x87_fp)

unfoldable pub alignment_check_handler : Machine → Handled
unfolding record_vector
alignment_check_handler m = panicked (record_vector m exception_alignment_check)

unfoldable pub machine_check_handler : Machine → Handled
unfolding record_vector
machine_check_handler m = panicked (record_vector m exception_machine_check)

unfoldable pub simd_fp_handler : Machine → Handled
unfolding record_vector
simd_fp_handler m = panicked (record_vector m exception_simd_fp)

unfoldable pub virtualization_handler : Machine → Handled
unfolding record_vector
virtualization_handler m = panicked (record_vector m exception_virtualization)
