-- ===== src/Ioctl/Reading.antt =====
-- What the casts of protocol/vusb_ioctl.h read of a buffer.
use usb_over_ip.Common.{ℕ, ◌+◌, ◌≤◌, ◌≡◌, refl, List, Option, some, length, drop, arith, ◌>>=◌}
use usb_over_ip.Common.Codec.{uint, bytes, uint_total, bytes_total}
use usb_over_ip.Ioctl.{
  PluginRequest, UrbCompletion, UrbCancelRequest, urb_completion_size, urb_cancel_request_size,
  plugin_request_size,
}
use usb_over_ip.Ioctl.Layout.{
  decode_urb_completion, decode_urb_cancel_request, decode_plugin_request,
}
use usb_over_ip.Protocol.{DeviceInfo, device_info_size}
use usb_over_ip.Protocol.Layout.{decode_device_info}

abbrev pub Reads : (A : Type 0) → Option (A × List ℕ) → List ℕ → ℕ → Type 0
Reads A o bs k = (a : A) × (rest : List ℕ) × (o ≡ some (a, rest)) × (length rest + k ≡ length bs)

-- A field read first, and the rest of the structure behind it.
Reads->>= :
    {A B : Type 0} (o : Option (A × List ℕ)) (f : A × List ℕ → Option (B × List ℕ)) (bs : List ℕ)
    (j k : ℕ)
    → Reads A o bs j
    → ((a : A) (rest : List ℕ) → length rest + j ≡ length bs → Reads B (f (a, rest)) rest k)
    → Reads B (o >>= f) bs (j + k)
Reads->>= o f bs j k (a, rest, e, l) h =
    let (b, last, q, m) = h a rest l in (b, last, rw e q, omega arith)

Reads-uint : (k : ℕ) (bs : List ℕ) → k ≤ length bs → Reads ℕ (uint k bs) bs k
Reads-uint k bs h = let t = uint_total k bs h in (_, drop k bs, t.0, t.1)

Reads-bytes : (k : ℕ) (bs : List ℕ) → k ≤ length bs → Reads (List ℕ) (bytes k bs) bs k
Reads-bytes k bs h = let t = bytes_total k bs h in (_, drop k bs, t.0, t.1)

pub Reads-urb_completion :
    (bs : List ℕ)
    → urb_completion_size ≤ length bs
    → Reads UrbCompletion (decode_urb_completion bs) bs urb_completion_size
unfolding decode_urb_completion
Reads-urb_completion bs h =
    Reads->>= (uint 4 bs) _ bs 4 16 (Reads-uint 4 bs (omega arith)) λ a₀ b₀ l₀.
      Reads->>= (uint 4 b₀) _ b₀ 4 12 (Reads-uint 4 b₀ (omega arith)) λ a₁ b₁ l₁.
        Reads->>= (uint 4 b₁) _ b₁ 4 8 (Reads-uint 4 b₁ (omega arith)) λ a₂ b₂ l₂.
          Reads->>= (uint 4 b₂) _ b₂ 4 4 (Reads-uint 4 b₂ (omega arith)) λ a₃ b₃ l₃.
            Reads->>= (uint 4 b₃) _ b₃ 4 0 (Reads-uint 4 b₃ (omega arith))
              λ a₄ b₄ l₄. (_, b₄, refl, omega arith)

pub Reads-urb_cancel_request :
    (bs : List ℕ)
    → urb_cancel_request_size ≤ length bs
    → Reads UrbCancelRequest (decode_urb_cancel_request bs) bs urb_cancel_request_size
unfolding decode_urb_cancel_request
Reads-urb_cancel_request bs h =
    Reads->>= (uint 4 bs) _ bs 4 4 (Reads-uint 4 bs (omega arith)) λ a0 b0 l0.
      Reads->>= (uint 4 b0) _ b0 4 0 (Reads-uint 4 b0 (omega arith))
        λ a1 b1 l1. (_, b1, refl, omega arith)

pub Reads-device_info :
    (bs : List ℕ)
    → device_info_size ≤ length bs
    → Reads DeviceInfo (decode_device_info bs) bs device_info_size
unfolding decode_device_info
Reads-device_info bs h =
    Reads->>= (uint 4 bs) _ bs 4 204 (Reads-uint 4 bs (omega arith)) λ a0 b0 l0.
      Reads->>= (uint 2 b0) _ b0 2 202 (Reads-uint 2 b0 (omega arith)) λ a1 b1 l1.
        Reads->>= (uint 2 b1) _ b1 2 200 (Reads-uint 2 b1 (omega arith)) λ a2 b2 l2.
          Reads->>= (uint 1 b2) _ b2 1 199 (Reads-uint 1 b2 (omega arith)) λ a3 b3 l3.
            Reads->>= (uint 1 b3) _ b3 1 198 (Reads-uint 1 b3 (omega arith)) λ a4 b4 l4.
              Reads->>= (uint 1 b4) _ b4 1 197 (Reads-uint 1 b4 (omega arith)) λ a5 b5 l5.
                Reads->>= (uint 1 b5) _ b5 1 196 (Reads-uint 1 b5 (omega arith)) λ a6 b6 l6.
                  Reads->>= (uint 1 b6) _ b6 1 195 (Reads-uint 1 b6 (omega arith)) λ a7 b7 l7.
                    Reads->>= (uint 1 b7) _ b7 1 194 (Reads-uint 1 b7 (omega arith)) λ a8 b8 l8.
                      Reads->>= (uint 2 b8) _ b8 2 192 (Reads-uint 2 b8 (omega arith)) λ a9 b9 l9.
                        Reads->>= (bytes 64 b9) _ b9 64 128 (Reads-bytes 64 b9 (omega arith))
                          λ a10 b10 l10.
                            Reads->>= (bytes 64 b10) _ b10 64 64 (Reads-bytes 64 b10 (omega arith))
                              λ a11 b11 l11.
                                Reads->>= (bytes 64 b11) _ b11 64 0
                                  (Reads-bytes 64 b11 (omega arith))
                                  λ a12 b12 l12. (_, b12, refl, omega arith)

pub Reads-plugin_request :
    (bs : List ℕ)
    → plugin_request_size ≤ length bs
    → Reads PluginRequest (decode_plugin_request bs) bs plugin_request_size
unfolding decode_plugin_request
Reads-plugin_request bs h =
    Reads->>= (decode_device_info bs) _ bs 208 4 (Reads-device_info bs (omega arith)) λ a0 b0 l0.
      Reads->>= (uint 4 b0) _ b0 4 0 (Reads-uint 4 b0 (omega arith))
        λ a1 b1 l1. (_, b1, refl, omega arith)
