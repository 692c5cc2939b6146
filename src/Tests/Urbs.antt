-- ===== src/Tests/Urbs.antt =====
-- The queue of requests and their entries at concrete inputs.
use usb_over_ip.Common.{
  ℕ, ◌≡◌, ◌≢◌, refl, List, [], ◌∷◌, ◌++◌, Option, none, some, arith, ◌⊎◌, length, All, replicate,
}
use usb_over_ip.Protocol.{Header}
use usb_over_ip.Protocol.Layout.{encode_header, decode_header}
use usb_over_ip.Protocol.Layout.Wire.{decode_header-header_bytes}
use usb_over_ip.Ioctl.Layout.{decode_pending_urb}
use usb_over_ip.Driver.{NtStatus, nt_success, DeviceContext, UrbEntry}
use usb_over_ip.Driver.Table.{find_device}
use usb_over_ip.Driver.Queue.{ending, freeing, complete_urb, cancel_urb, find_urb, with_urbs, inc64}
use usb_over_ip.Driver.Queue.Order.{fill, drain, drain-fill, Takes}
use usb_over_ip.Driver.Queue.Completing.{complete_urb_copies, cancel_urb-Takes}
use usb_over_ip.Driver.Urb.{Urb, TransferFields, urb_parse, pending_of}
use usb_over_ip.Driver.Urb.Buffers.{
  urb_build_pending_response, process_standard_request, urb_get_buffer,
}
use usb_over_ip.Driver.Urb.Parsing.{create_each, Counts, create_each-Counts, descriptor_served}
use usb_over_ip.Driver.Urb.Response.{response_decodes}
use usb_over_ip.Tests.Samples.{busy_context, out_entry, in_entry, descriptors}

drain-fill_example :
    ((drain 3 (fill busy_context (out_entry 9 ∷ []))).0
      ≡ out_entry 1 ∷ in_entry 2 ∷ out_entry 9 ∷ [])
    × ((drain 3 (fill busy_context (out_entry 9 ∷ []))).1.pending_urb_list ≡ [])
drain-fill_example = drain-fill busy_context (out_entry 9 ∷ [])

abbrev pub TakesOrNot : DeviceContext → ℕ → Type 0
TakesOrNot ctx id =
    ((find_urb ctx id ≡ (none, ctx)) × All (λ (e : UrbEntry). e.urb_id ≢ id) ctx.pending_urb_list)
    ⊎ ((e : UrbEntry) × (rest : List UrbEntry) × (find_urb ctx id ≡ (some e, with_urbs ctx rest))
        × Takes id ctx.pending_urb_list e rest)

complete_urb_copies_example :
    (ctx' : DeviceContext) × (complete_urb busy_context
        (in_entry 2)
        NtStatus.success
        2
        (some (5 ∷ 6 ∷ []))
      ≡ some (
        ctx',
        record {
          buffer = some (5 ∷ 6 ∷ 9 ∷ []);
          effects = ending (in_entry 2) NtStatus.success 2 ++ freeing (in_entry 2);
        },
      ))
    × (ctx'.pending_urb_list ≡ out_entry 1 ∷ in_entry 2 ∷ [])
    × (ctx'.device_count ≡ 1)
    × (ctx'.statistics.total_urbs_completed ≡ 1)
    × (ctx'.statistics.total_errors ≡ 0)
unfolding nt_success
complete_urb_copies_example =
    complete_urb_copies busy_context (in_entry 2) NtStatus.success 2 (5 ∷ 6 ∷ []) (7 ∷ 8 ∷ 9 ∷ [])
      refl (omega arith) (omega arith) (omega arith)

abbrev requests : List Urb
requests = Urb.pipe_request ∷ Urb.select_interface 1 0 ∷ []

create_each-Counts_example :
    Counts 2 (create_each 1 busy_context 1 0 requests).0
    × ((create_each 1 busy_context 1 0 requests).1.next_urb_id ≡ 4)
    × (length (create_each 1 busy_context 1 0 requests).0 ≡ 2)
create_each-Counts_example = create_each-Counts 1 busy_context 1 0 requests (omega arith)

no_mdl : ℕ → Option (List ℕ)
no_mdl m = none

abbrev eighteen : TransferFields
eighteen = record { flags = 0; buffer_length = 18; buffer = some (replicate 20 0); mdl = none }

descriptor_served_example :
    process_standard_request no_mdl busy_context
      (urb_parse 1 (in_entry 2) (Urb.get_descriptor eighteen 1 0 0))
    ≡ some (NtStatus.success, some (descriptors ++ 0 ∷ 0 ∷ []))
unfolding find_device
descriptor_served_example =
    descriptor_served no_mdl 1 busy_context (in_entry 2) eighteen _ descriptors (replicate 20 0) 0
      refl refl refl (omega arith) refl (omega arith)

response_decodes_example :
    (out : List ℕ) × (urb_build_pending_response no_mdl (out_entry 1) (replicate 40 0) 40
      ≡ some (NtStatus.success, 39, out))
    × (decode_pending_urb out ≡ some (pending_of (out_entry 1), 7 ∷ 8 ∷ 9 ∷ 0 ∷ []))
unfolding urb_get_buffer
response_decodes_example =
    response_decodes no_mdl (out_entry 1) (7 ∷ 8 ∷ 9 ∷ []) (replicate 40 0) (omega arith) refl
      (omega arith) refl (omega arith) (omega arith) (omega arith)

abbrev ping : Header
ping = record {
  magic = 0x56555342;
  version = 0x0100;
  command = 3;
  payload_length = 0;
  sequence = 17;
}

decode_header-header_bytes_example :
    (encode_header ping []
      ≡ 0x42 ∷ 0x53 ∷ 0x55 ∷ 0x56 ∷ 0 ∷ 1 ∷ 3 ∷ 0 ∷ 0 ∷ 0 ∷ 0 ∷ 0 ∷ 17 ∷ 0 ∷ 0 ∷ 0 ∷ [])
    × (decode_header
          (0x42 ∷ 0x53 ∷ 0x55 ∷ 0x56 ∷ 0 ∷ 1 ∷ 3 ∷ 0 ∷ 0 ∷ 0 ∷ 0 ∷ 0 ∷ 17 ∷ 0 ∷ 0 ∷ 0 ∷ [])
        ≡ some (ping, []))
decode_header-header_bytes_example = decode_header-header_bytes ping [] (omega arith)

abbrev pub CancelsOrNot : DeviceContext → ℕ → Type 0
CancelsOrNot ctx id =
    ((cancel_urb ctx id ≡ some (ctx, none))
      × All (λ (e : UrbEntry). e.urb_id ≢ id) ctx.pending_urb_list)
    ⊎ ((e : UrbEntry) × (rest : List UrbEntry) × (ctx' : DeviceContext) × Takes id
          ctx.pending_urb_list e rest
        × (cancel_urb ctx id
            ≡ some (
              ctx',
              some (record {
                buffer = e.transfer_buffer;
                effects = ending e NtStatus.cancelled 0 ++ freeing e;
              }),
            ))
        × (ctx'.pending_urb_list ≡ rest)
        × (ctx'.statistics ≡ record (ctx.statistics) {
          total_urbs_canceled = inc64 ctx.statistics.total_urbs_canceled;
          total_errors = inc64 ctx.statistics.total_errors;
        }))

cancel_urb-Takes_example : CancelsOrNot busy_context 2
cancel_urb-Takes_example = cancel_urb-Takes busy_context 2
