-- ===== src/Protocol/Layout/Wire.antt =====
-- The header of protocol/vusb_protocol.h byte by byte (VUSB_HEADER), in little-endian order.
use usb_over_ip.Common.{ℕ, ◌/◌, ◌%◌, ◌≡◌, refl, sym, ◌∙◌, List, ◌∷◌, some, arith, ap}
use usb_over_ip.Common.Codec.{to_le}
use usb_over_ip.Protocol.{Header}
use usb_over_ip.Protocol.Layout.{
  encode_header, decode_header, FitsHeader, decode_header-encode_header,
}

-- The 16 bytes of a header: the magic number at 0, the version at 4, the command at 6, the length of
-- the payload at 8 and the sequence number at 12.
abbrev pub header_bytes : Header → List ℕ → List ℕ
header_bytes x rest =
    x.magic % 256
    ∷ x.magic / 256 % 256
    ∷ x.magic / 65536 % 256
    ∷ x.magic / 16777216 % 256
    ∷ x.version % 256
    ∷ x.version / 256 % 256
    ∷ x.command % 256
    ∷ x.command / 256 % 256
    ∷ x.payload_length % 256
    ∷ x.payload_length / 256 % 256
    ∷ x.payload_length / 65536 % 256
    ∷ x.payload_length / 16777216 % 256
    ∷ x.sequence % 256
    ∷ x.sequence / 256 % 256
    ∷ x.sequence / 65536 % 256
    ∷ x.sequence / 16777216 % 256
    ∷ rest

third : (n : ℕ) → n / 256 / 256 % 256 ≡ n / 65536 % 256
third n = omega arith

fourth : (n : ℕ) → n / 256 / 256 / 256 % 256 ≡ n / 16777216 % 256
fourth n = omega arith

-- A header is written as its 16 bytes, each field at its place, in little-endian order; and if its
-- fields fit their widths, these bytes are read as the header, with the bytes behind them.
pub decode_header-header_bytes :
    (x : Header) (rest : List ℕ)
    → FitsHeader x
    → (encode_header x rest ≡ header_bytes x rest)
      × (decode_header (header_bytes x rest) ≡ some (x, rest))
unfolding encode_header to_le
decode_header-header_bytes x rest fits =
    let written : encode_header x rest ≡ header_bytes x rest =
      rw
        (
          third x.magic,
          fourth x.magic,
          third x.payload_length,
          fourth x.payload_length,
          third x.sequence,
          fourth x.sequence,
        )
        refl in
    (written, ap decode_header (sym written) ∙ decode_header-encode_header x rest fits)
