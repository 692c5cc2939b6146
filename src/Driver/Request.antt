-- ===== src/Driver/Request.antt =====
-- The calls of the Windows driver framework that the handlers make, as a parameter, and what a
-- handler gives back.
use mathlib.Core.Bool.{true, false}
use usb_over_ip.Common.{ℕ, ◌≤◌, ◌≡◌, List, Bool, Option, none, some, length}
use usb_over_ip.Ioctl.{VersionInfo, PluginResponse, DeviceList, Statistics}
use usb_over_ip.Driver.{NtStatus, nt_success, DeviceContext}
use usb_over_ip.Driver.Queue.{Completion}

-- A retrieved buffer, or the failing status of the call.
pub data Retrieved : Type 0 where
  retrieved : List ℕ → Retrieved
  refused : NtStatus → Retrieved

-- A request is a handle. `input_mdl` and `output_mdl` are the direct buffers: `none` where the
-- framework gives no list, `some none` where mapping one fails. The two flags are the outcomes of
-- the pool allocations in the call.
pub record Framework : Type 0 where
  pub retrieve_input : ℕ → ℕ → Retrieved
  pub retrieve_output : ℕ → ℕ → Retrieved
  pub input_mdl : ℕ → Option (Option (List ℕ))
  pub output_mdl : ℕ → Option (Option (List ℕ))
  pub forward_to_pending_queue : ℕ → NtStatus
  pub device_allocated : Bool
  pub descriptors_allocated : Bool

-- The documented behaviour: a buffer that the framework hands out has the length of the request's
-- buffer, which is at least the size asked for; a refusal is an error. Mapping a list
-- may fail.
pub record IsDocumented (f : Framework) (request input_length output_length : ℕ) : Type 0 where
  pub input_length_lem :
      (size : ℕ) (b : List ℕ)
      → f.retrieve_input request size ≡ Retrieved.retrieved b
      → (size ≤ input_length) × (length b ≡ input_length)
  pub output_length_lem :
      (size : ℕ) (b : List ℕ)
      → f.retrieve_output request size ≡ Retrieved.retrieved b
      → (size ≤ output_length) × (length b ≡ output_length)
  pub input_mdl_lem : (b : List ℕ) → f.input_mdl request ≡ some (some b) → length b ≡ input_length
  pub output_mdl_lem :
      (b : List ℕ) → f.output_mdl request ≡ some (some b) → length b ≡ output_length
  pub output_refusal :
      (size : ℕ) (s : NtStatus)
      → f.retrieve_output request size ≡ Retrieved.refused s
      → nt_success s ≡ false

-- Whether the direct buffer is not a list that fails to be mapped.
abbrev pub maps : Option (Option (List ℕ)) → Bool
maps none = true
maps (some none) = false
maps (some (some b)) = true

pub data Output : Type 0 where
  no_output : Output
  version : VersionInfo → Output
  plugin : PluginResponse → Output
  device_list : DeviceList → Output
  pending_urb : List ℕ → Output
  statistics : Statistics → Output

-- What a handler leaves: the status, the count of bytes for the caller, its output, and the
-- completion of another request, if it made one.
pub record Reply : Type 0 where
  pub status : NtStatus
  pub bytes_returned : ℕ
  pub output : Output
  pub completion : Option Completion
  pub context : DeviceContext

abbrev pub status_only : NtStatus → DeviceContext → Reply
status_only s ctx = record {
  status = s;
  bytes_returned = 0;
  output = Output.no_output;
  completion = none;
  context = ctx;
}

abbrev pub answer : ℕ → Output → DeviceContext → Reply
answer n o ctx = record {
  status = NtStatus.success;
  bytes_returned = n;
  output = o;
  completion = none;
  context = ctx;
}
