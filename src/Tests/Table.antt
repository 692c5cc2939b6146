-- ===== src/Tests/Table.antt =====
-- The table of devices at concrete inputs.
use usb_over_ip.Common.{ℕ, ◌≡◌, refl, none, arith}
use usb_over_ip.Driver.{NtStatus}
use usb_over_ip.Driver.Table.{
  create_virtual_device, destroy_virtual_device, find_device, cleanup_all_devices, copy_descriptors,
  add_device, copy_memory, free_slot, init_context,
}
use usb_over_ip.Driver.Table.Lifecycle.{destroy-create, plugged}
use usb_over_ip.Driver.Table.Removal.{cleanup_all_devices_empties}
use usb_over_ip.Tests.Samples.{mouse, descriptors, empty_context, full_context}

empty_context_is_init : empty_context ≡ init_context
unfolding init_context
empty_context_is_init = refl

destroy-create_example :
    destroy_virtual_device (plugged empty_context mouse descriptors 18 0) 1
    ≡ (NtStatus.success, empty_context)
unfolding create_virtual_device copy_descriptors add_device copy_memory free_slot
destroy-create_example =
    destroy-create empty_context (plugged empty_context mouse descriptors 18 0) mouse descriptors 18
      1 (omega arith) (omega arith) (omega arith) refl

cleanup_all_devices_empties_example :
    ((id : ℕ) → find_device (cleanup_all_devices full_context) id ≡ none)
    × ((cleanup_all_devices full_context).device_count ≡ 0)
cleanup_all_devices_empties_example = cleanup_all_devices_empties full_context (omega arith)
