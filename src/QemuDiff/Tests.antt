-- ===== src/QemuDiff/Tests.antt =====
-- A copy to QEMU on an example.
use nju_ics2020_pa.Base.{ℕ, ◌+◌, ◌≡◌, true, List, [], ◌∷◌, ok, arith}
use nju_ics2020_pa.QemuDiff.{gdb_memcpy_to_qemu}
use nju_ics2020_pa.QemuDiff.Chunks.{concat, AllFit, send_all, gdb_memcpy_to_qemu-Pieces}

-- The connection is the packets so far, and every reply is `OK`.
abbrev send : List ℕ → List (List ℕ) → List (List ℕ)
send packet conn = packet ∷ conn

abbrev recv : List (List ℕ) → List ℕ × List (List ℕ)
recv conn = (b'O' ∷ b'K' ∷ [], conn)

abbrev encode : ℕ → ℕ
encode d = b'0' + d

gdb_memcpy_to_qemu-Pieces_example :
    (pieces : List (List ℕ)) × (concat pieces ≡ 1 ∷ 2 ∷ 3 ∷ [])
    × AllFit pieces
    × ((conn : List (List ℕ))
        → gdb_memcpy_to_qemu encode (λ s. 0) send recv 0x80000000 (1 ∷ 2 ∷ 3 ∷ []) conn
          ≡ ok (send_all encode (λ s. 0) send recv true 0x80000000 pieces conn))
gdb_memcpy_to_qemu-Pieces_example =
    gdb_memcpy_to_qemu-Pieces encode (λ s. 0) send recv 0x80000000 (1 ∷ 2 ∷ 3 ∷ []) (omega arith)
