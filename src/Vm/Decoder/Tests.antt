-- ===== src/Vm/Decoder/Tests.antt =====
-- The formats at concrete fields.
use rv32umos.Base.{◌≡◌, arith}
use rv32umos.Vm.Decoder.{opcode, rd, func3, rs1, rs2, imm_s, imm_u}
use rv32umos.Vm.Decoder.Encoding.{encode_s, encode_u, decode-encode_s, decode-encode_u}

-- sw x2, -4(x1)
decode-encode_s_example :
    let w = encode_s 0x23 0xffc 2 1 2 in
    (opcode w ≡ 0x23) × (func3 w ≡ 2) × (rs1 w ≡ 1) × (rs2 w ≡ 2) × (imm_s w ≡ 0xffff_fffc)
decode-encode_s_example =
    decode-encode_s 0x23 0xffc 2 1 2 (omega arith) (omega arith) (omega arith) (omega arith)
      (omega arith)

-- lui x5, 0x12345
decode-encode_u_example :
    let w = encode_u 0x37 0x12345 5 in (opcode w ≡ 0x37) × (rd w ≡ 5) × (imm_u w ≡ 0x1234_5000)
decode-encode_u_example = decode-encode_u 0x37 0x12345 5 (omega arith) (omega arith) (omega arith)
