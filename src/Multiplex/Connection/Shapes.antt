-- ===== src/Multiplex/Connection/Shapes.antt =====
-- Which frames pass `validate_frame_shape`, and that the frames a connection sends do.
use dcp.Base.{ℕ, ◌≤◌, ◌<◌, ◌^◌, ◌%◌, ◌≡◌, ◌≢◌, ◌↔◌, inl, inr, Bool-cases, ok, arith, ◌==◌}
use dcp.Multiplex.Header.{
  StreamHeader, new, data_header, syn, fin, rst, ack, is_control, is_empty, has_unknown_bits,
  is_fin, is_rst, is_ack, is_syn,
}
use dcp.Multiplex.Header.Laws.{flag_tests}
use dcp.Multiplex.Connection.Frames.{check_syn, check_control, check_stream, validate_frame_shape}

module _ (id : ℕ) (pos : 0 < id) where
  pub data_header-shaped : (len : ℕ) → validate_frame_shape (data_header id len) len ≡ ok tt
  unfolding validate_frame_shape data_header new is_control check_stream check_syn is_syn is_fin
      is_rst is_ack has_unknown_bits
  data_header-shaped len = ground (arith, pos)

  pub syn-shaped : validate_frame_shape (syn id) 0 ≡ ok tt
  unfolding validate_frame_shape syn new is_control check_stream check_syn is_syn is_fin is_rst
      is_ack has_unknown_bits
  syn-shaped = ground (arith, pos)

  pub ack-shaped : validate_frame_shape (ack id) 0 ≡ ok tt
  unfolding validate_frame_shape ack new is_control check_stream check_syn is_syn is_fin is_rst
      is_ack has_unknown_bits
  ack-shaped = ground (arith, pos)

  pub fin-shaped : validate_frame_shape (fin id) 0 ≡ ok tt
  unfolding validate_frame_shape fin new is_control check_stream check_syn is_syn is_fin is_rst
      is_ack has_unknown_bits
  fin-shaped = ground (arith, pos)

  pub rst-shaped : validate_frame_shape (rst id) 0 ≡ ok tt
  unfolding validate_frame_shape rst new is_control check_stream check_syn is_syn is_fin is_rst
      is_ack has_unknown_bits
  rst-shaped = ground (arith, pos)

-- What the documentation of the header allows.
pub record IsWellFormed (header : StreamHeader) (len : ℕ) : Type 0 where
  pub zeroed : header.reserved ≡ 0
  pub known : header.flags.byte < 16
  pub control : header.stream_id ≡ 0 → (header.flags.byte ≡ 0) × (len ≡ 0)
  -- SYN stands alone, FIN and RST exclude each other, and only a frame without flags has a payload.
  pub alone : header.stream_id ≢ 0 → 8 ≤ header.flags.byte → header.flags.byte ≡ 8
  pub apart : header.stream_id ≢ 0 → header.flags.byte % 4 ≢ 3
  pub loaded : header.stream_id ≢ 0 → len ≢ 0 → header.flags.byte ≡ 0

accepted :
    (header : StreamHeader) (len : ℕ)
    → header.flags.byte < 2 ^ 8
    → validate_frame_shape header len ≡ ok tt
    → IsWellFormed header len
unfolding validate_frame_shape is_control check_stream check_control check_syn is_empty
accepted header len small h =
    let t = flag_tests header.flags.byte small in
    record {
      zeroed = ground arith;
      known = ground (arith, t.4);
      control = λ z. ground (arith, t.4);
      alone = λ n le. ground (arith, t.3, t.4);
      apart = λ n e. ground (arith, t.0, t.1);
      loaded = λ n l. ground (arith, t.0, t.1, t.2, t.3);
    }

well_formed :
    (header : StreamHeader) (len : ℕ)
    → header.flags.byte < 2 ^ 8
    → IsWellFormed header len
    → validate_frame_shape header len ≡ ok tt
unfolding validate_frame_shape is_control check_stream check_control check_syn is_empty
well_formed header len small w =
    let t = flag_tests header.flags.byte small in
    elim (Bool-cases (header.stream_id == 0)) [
      | inl is ↦
          let z : header.stream_id ≡ 0 = ground arith in
          ground (arith, w.zeroed, w.known, w.control z, t.4)
      | inr other ↦
          let n : header.stream_id ≢ 0 = ground arith in
          ground
            (arith, w.zeroed, w.known, w.alone n, w.apart n, w.loaded n, t.0, t.1, t.2, t.3, t.4)
    ]

-- `validate_frame_shape` accepts a header, whose flags are a byte, with a payload of a length if and
-- only if the reserved byte is zero, no flag but FIN, RST, ACK and SYN is set, a frame of the control
-- stream has no flags and no payload, and in a frame of another stream SYN stands alone, FIN and RST
-- are not both set and a payload comes with no flags.
pub validate_frame_shape_iff :
    (header : StreamHeader) (len : ℕ)
    → header.flags.byte < 2 ^ 8
    → (validate_frame_shape header len ≡ ok tt) ↔ IsWellFormed header len
validate_frame_shape_iff header len small =
    (accepted header len small, well_formed header len small)
