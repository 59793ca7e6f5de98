-- ===== src/X86/Exec.antt =====
-- nemu/src/isa/x86/exec/exec.c and init.c: from the opcode to the helpers, one round, and the image.
pub mod Prefix
use nju_ics2020_pa.Base.{
  ℕ, zero, suc, ◌+◌, ◌%◌, ◌^◌, Bool, true, false, ◌&&◌, ◌||◌, Option, none, some, leb, ◌==◌,
  if◌then◌else◌, List, [], ◌∷◌, Result, ok, stop, out_of_fuel, ◌>>=◌, update,
}
use nju_ics2020_pa.Base.Bytes.{copy}
use nju_ics2020_pa.Memory.Paddr.{guest_to_host}
use nju_ics2020_pa.Rtl.Machine.{
  Machine, Decode, Exec, src1, src2, dest, IsaInfo, instr_fetch, update_pc,
}
use nju_ics2020_pa.X86.RegTest.{reg_test}
use nju_ics2020_pa.X86.Modrm.{pmem_base, on_operand, on_isa}
use nju_ics2020_pa.X86.Decode.{
  decode_i2e, decode_si2e, decode_mov_g2e, decode_mov_e2g, decode_o2a, decode_a2o, decode_mov_i2r,
  decode_gp2_ib2e, decode_gp2_1_e, decode_gp2_cl2e, decode_mov_i2e, decode_e, decode_gp7_e,
}
use nju_ics2020_pa.X86.Move.{exec_mov, exec_inv, exec_nemu_trap}

-- The instructions of the image.
abbrev pub img : List ℕ
img =
    0xb8 ∷ 0x34 ∷ 0x12 ∷ 0x00 ∷ 0x00 ∷ 0xb9 ∷ 0x27 ∷ 0x00 ∷ 0x10 ∷ 0x00 ∷ 0x89 ∷ 0x01 ∷ 0x66 ∷ 0xc7
    ∷ 0x41 ∷ 0x04 ∷ 0x01 ∷ 0x00 ∷ 0xbb ∷ 0x02 ∷ 0x00 ∷ 0x00 ∷ 0x00 ∷ 0x66 ∷ 0xc7 ∷ 0x84 ∷ 0x99
    ∷ 0x00 ∷ 0xe0 ∷ 0xff ∷ 0xff ∷ 0x01 ∷ 0x00 ∷ 0xb8 ∷ 0x00 ∷ 0x00 ∷ 0x00 ∷ 0x00 ∷ 0xd6 ∷ []

abbrev pub image_start : ℕ
image_start = 0x100000

-- `(ISADecodeInfo) { 0 }`
abbrev pub no_isa : IsaInfo
no_isa = record { is_operand_size_16 = false; ext_opcode = 0; mbase = none; mbr = 0; moff = 0 }

module _ {D : Type 0} where
  abbrev with_width : ℕ → Exec D → Exec D
  with_width w e =
      on_operand src2 (λ o. record o { width = w })
        (on_operand dest (λ o. record o { width = w })
          (on_operand src1 (λ o. record o { width = w }) e))

  -- `none` is -1.
  unfoldable pub set_width : Option ℕ → Exec D → Exec D
  set_width none e = e
  set_width (some w) e =
      with_width (if w == 0 then (if e.s.isa.is_operand_size_16 then 2 else 4) else w) e

  -- The groups of instructions: each case of the `switch` is `EMPTY`.
  abbrev pub exec_gp : Exec D → Result (Exec D)
  exec_gp e = exec_inv (set_width (some 0) e)

  -- `CASE_ENTRY`
  abbrev pub idexw :
      (Exec D → Result (Exec D)) → (Exec D → Result (Exec D)) → ℕ → Exec D → Result (Exec D)
  idexw id ex w e = id (set_width (some w) e) >>= ex

  abbrev set_opcode : ℕ → Exec D → Exec D
  set_opcode opcode e = record e { s = record e.s { opcode = opcode } }

  pub exec_2byte_esc : Exec D → Result (Exec D)
  exec_2byte_esc e = do
    (opcode, e₁) ← instr_fetch pmem_base 1 e
    let e₂ = set_opcode opcode e₁
    if opcode == 0x01 then idexw decode_gp7_e exec_gp 0 e₂ else exec_inv e₂

  -- The cases of the `switch` but 0x66; the groups have no case of their own.
  unfoldable pub exec_opcode : ℕ → Exec D → Result (Exec D)
  exec_opcode opcode e =
      if opcode == 0x0f
      then exec_2byte_esc (set_width (some 0) e)
      else if opcode == 0x80
      then idexw decode_i2e exec_gp 1 e
      else if opcode == 0x81
      then idexw decode_i2e exec_gp 0 e
      else if opcode == 0x83
      then idexw decode_si2e exec_gp 0 e
      else if opcode == 0x88
      then idexw decode_mov_g2e exec_mov 1 e
      else if opcode == 0x89
      then idexw decode_mov_g2e exec_mov 0 e
      else if opcode == 0x8a
      then idexw decode_mov_e2g exec_mov 1 e
      else if opcode == 0x8b
      then idexw decode_mov_e2g exec_mov 0 e
      else if opcode == 0xa0
      then idexw decode_o2a exec_mov 1 e
      else if opcode == 0xa1
      then idexw decode_o2a exec_mov 0 e
      else if opcode == 0xa2
      then idexw decode_a2o exec_mov 1 e
      else if opcode == 0xa3
      then idexw decode_a2o exec_mov 0 e
      else if leb 0xb0 opcode && leb opcode 0xb7
      then idexw decode_mov_i2r exec_mov 1 e
      else if leb 0xb8 opcode && leb opcode 0xbf
      then idexw decode_mov_i2r exec_mov 0 e
      else if opcode == 0xc0
      then idexw decode_gp2_ib2e exec_gp 1 e
      else if opcode == 0xc1
      then idexw decode_gp2_ib2e exec_gp 0 e
      else if opcode == 0xc6
      then idexw decode_mov_i2e exec_mov 1 e
      else if opcode == 0xc7
      then idexw decode_mov_i2e exec_mov 0 e
      else if opcode == 0xd0
      then idexw decode_gp2_1_e exec_gp 1 e
      else if opcode == 0xd1
      then idexw decode_gp2_1_e exec_gp 0 e
      else if opcode == 0xd2
      then idexw decode_gp2_cl2e exec_gp 1 e
      else if opcode == 0xd3
      then idexw decode_gp2_cl2e exec_gp 0 e
      else if opcode == 0xd6
      then exec_nemu_trap (set_width (some 0) e)
      else if opcode == 0xf6 || opcode == 0xfe
      then idexw decode_e exec_gp 1 e
      else if opcode == 0xf7 || opcode == 0xff
      then idexw decode_e exec_gp 0 e
      else exec_inv e

  -- One unit of fuel for each prefix, and one for the opcode.
  unfoldable pub fetch_decode_exec : ℕ → Exec D → Result (Exec D)
  fetch_decode_exec zero e = stop out_of_fuel
  fetch_decode_exec (suc fuel) e = do
    (opcode, e₁) ← instr_fetch pmem_base 1 e
    let e₂ = set_opcode opcode e₁
    let again = fetch_decode_exec fuel (on_isa (λ i. record i { is_operand_size_16 = true }) e₂)
    if opcode == 0x66 then again else exec_opcode opcode e₂

  abbrev pub begun : Decode → Machine D → Exec D
  begun garbage m = record {
    cpu = m;
    s = record garbage { is_jmp = false; isa = no_isa; seq_pc = m.pc };
  }

  -- `garbage` is what the variable `s` holds before it is set. The result is `s.seq_pc`.
  unfoldable pub isa_exec_once : ℕ → Decode → Machine D → Result (ℕ × Machine D)
  isa_exec_once fuel garbage m = do
    e ← fetch_decode_exec fuel (begun garbage m)
    ok (e.s.seq_pc, (update_pc e).cpu)

  unfoldable pub restart : Machine D → Machine D
  restart m = record m { pc = pmem_base + image_start }

  -- `pc_sample` and `sample` are the random numbers of `reg_test`.
  unfoldable pub init_isa : ℕ → (ℕ → ℕ) → Machine D → Result (Machine D)
  init_isa pc_sample sample m = reg_test sample pc_sample m >>= λ m₁. ok (
      restart (record m₁ {
        bus = record m₁.bus { pmem = copy m₁.bus.pmem (guest_to_host image_start) img };
      }))
