-- ===== src/QemuDiff.antt =====
-- nemu/tools/qemu-diff/src/{gdb-host,diff-test}.c: the reference machine for differential testing is QEMU,
-- which is reached over the protocol of gdb. The connection, and what protocol.c (a copy of gdb-toys) does on
-- it, are parameters. The start of QEMU is left out.
pub mod Chunks
mod Tests
use nju_ics2020_pa.Base.{
  ℕ, zero, suc, ◌+◌, ◌-◌, ◌*◌, ◌/◌, ◌%◌, ◌^◌, Bool, true, false, ◌&&◌, List, [], ◌∷◌, ◌++◌, length,
  take, drop, ltb, leb, ◌==◌, if◌then◌else◌, Result, ok, stop, out_of_fuel, ◌>>=◌, ◌>>◌, assert,
  defined,
}
use nju_ics2020_pa.Base.CString.{same_text}

-- `%x` of a number of 32 bits, which has at most eight digits.
abbrev pub hex_digit : ℕ → ℕ
hex_digit d = if ltb d 10 then b'0' + d else b'a' + (d - 10)

unfoldable pub hexadecimal : ℕ → ℕ → List ℕ
hexadecimal zero n = []
hexadecimal (suc fuel) n =
    let rest = hexadecimal fuel (n / 16) in
    if ltb n 16 then hex_digit n ∷ [] else rest ++ hex_digit (n % 16) ∷ []

-- What `strlen` sees of a buffer.
abbrev pub up_to_nul : List ℕ → List ℕ
up_to_nul [] = []
up_to_nul (c ∷ s) = if c == 0 then [] else c ∷ up_to_nul s

abbrev pub word_bytes : ℕ → List ℕ
word_bytes w = w % 256 ∷ w / 256 % 256 ∷ w / 65536 % 256 ∷ w / 16777216 % 256 ∷ []

-- The registers as bytes in memory.
abbrev pub regs_bytes : List ℕ → List ℕ
regs_bytes [] = []
regs_bytes (w ∷ ws) = word_bytes w ++ regs_bytes ws

abbrev pub mtu : ℕ
mtu = 1500

module _ {C : Type 0} (hex_encode : ℕ → ℕ) (gdb_decode_hex_str : List ℕ → ℕ)
    (gdb_send : List ℕ → C → C) (gdb_recv : C → List ℕ × C) where
  -- A packet and the reply.
  abbrev pub exchange : List ℕ → C → List ℕ × C
  exchange packet conn = gdb_recv (gdb_send packet conn)

  abbrev pub is_ok : List ℕ → Bool
  is_ok reply = same_text reply (b'O' ∷ b'K' ∷ [])

  unfoldable pub hex_bytes : List ℕ → List ℕ
  hex_bytes [] = []
  hex_bytes (b ∷ s) = hex_encode (b / 16) ∷ hex_encode (b % 16) ∷ hex_bytes s

  abbrev pub memory_packet : ℕ → List ℕ → List ℕ
  memory_packet dest src =
      b'M'
      ∷ b'0'
      ∷ b'x'
      ∷ (hexadecimal 8 dest ++ (b',' ∷ (hexadecimal 8 (length src) ++ (b':' ∷ hex_bytes src))))

  -- `src` is the bytes from the pointer on, `len` of them.
  unfoldable pub gdb_memcpy_to_qemu_small : ℕ → List ℕ → C → Result (Bool × C)
  gdb_memcpy_to_qemu_small dest src conn =
      let buf = memory_packet dest src in
      let (reply, conn') = exchange (up_to_nul buf) conn in
      defined (ltb (length buf) (length src * 2 + 128)) >> ok (is_ok reply, conn')

  -- The rounds of the `while` loop, with a unit of fuel for each, and what follows it.
  unfoldable pub memcpy_loop : ℕ → Bool → ℕ → List ℕ → C → Result (Bool × C)
  memcpy_loop zero ok_ dest src conn = stop out_of_fuel
  memcpy_loop (suc fuel) ok_ dest src conn =
      if ltb mtu (length src)
      then (gdb_memcpy_to_qemu_small dest (take mtu src) conn >>= λ x.
          memcpy_loop fuel (ok_ && x.0) ((dest + mtu) % 2 ^ 32) (drop mtu src) x.1)
      else (gdb_memcpy_to_qemu_small dest src conn >>= λ x. ok (ok_ && x.0, x.1))

  unfoldable pub gdb_memcpy_to_qemu : ℕ → List ℕ → C → Result (Bool × C)
  gdb_memcpy_to_qemu dest src conn = memcpy_loop (length src + 1) true dest src conn

  -- The array has `n` words; each is eight characters of the reply.
  pub decode_regs : ℕ → List ℕ → Result (List ℕ)
  decode_regs zero reply = ok []
  decode_regs (suc n) reply = do
    defined (leb 8 (length reply))
    regs ← decode_regs n (drop 8 reply)
    ok (gdb_decode_hex_str (take 8 reply) % 2 ^ 32 ∷ regs)

  pub gdb_getregs : ℕ → C → Result (List ℕ × C)
  gdb_getregs n conn =
      let (reply, conn') = exchange (b'g' ∷ []) conn in
      decode_regs n reply >>= λ regs. ok (regs, conn')

  pub gdb_setregs : List ℕ → C → Bool × C
  gdb_setregs regs conn =
      let (reply, conn') = exchange (up_to_nul (b'G' ∷ hex_bytes (regs_bytes regs))) conn in
      (is_ok reply, conn')

  -- `vCont;s:1`
  pub gdb_si : C → C
  gdb_si conn =
      (exchange (b'v' ∷ b'C' ∷ b'o' ∷ b'n' ∷ b't' ∷ b';' ∷ b's' ∷ b':' ∷ b'1' ∷ []) conn).1

  pub difftest_memcpy_from_dut : ℕ → List ℕ → C → Result C
  difftest_memcpy_from_dut dest src conn =
      gdb_memcpy_to_qemu dest src conn >>= λ x. assert x.0 >> ok x.1

  -- DIFFTEST_REG_SIZE is `k` words.
  pub difftest_getregs : ℕ → ℕ → C → Result (List ℕ × C)
  difftest_getregs n k conn = gdb_getregs n conn >>= λ x. ok (take k x.0, x.1)

  pub difftest_setregs : ℕ → ℕ → List ℕ → C → Result C
  difftest_setregs n k r conn = do
    (qemu_r, conn') ← gdb_getregs n conn
    ok ((gdb_setregs (take k r ++ drop k qemu_r) conn').1)

  pub difftest_exec : ℕ → C → C
  difftest_exec zero conn = conn
  difftest_exec (suc n) conn = difftest_exec n (gdb_si conn)
