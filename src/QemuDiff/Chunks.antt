-- ===== src/QemuDiff/Chunks.antt =====
-- A copy to QEMU in pieces.
use mathlib.Core.List.{append-nil}
use nju_ics2020_pa.Base.{
  ℕ, zero, suc, ◌+◌, ◌%◌, ◌^◌, ◌≤◌, ◌<◌, ◌≡◌, refl, ap, ◌∙◌, sym, Bool, true, ◌&&◌, List, [], ◌∷◌,
  ◌++◌, length, take, drop, ltb, length-drop, length-append, ◌/◌, ◌*◌, Result, ok, arith,
  Bool-cases, inl, inr,
}
use nju_ics2020_pa.QemuDiff.{
  mtu, hex_digit, hexadecimal, up_to_nul, hex_bytes, memory_packet, gdb_memcpy_to_qemu_small,
  memcpy_loop, gdb_memcpy_to_qemu,
}
use nju_ics2020_pa.Base.CString.{same_text}

abbrev pub concat : List (List ℕ) → List ℕ
concat [] = []
concat (s ∷ pieces) = s ++ concat pieces

abbrev pub AllFit : List (List ℕ) → Type 0
AllFit [] = Unit {0}
AllFit (s ∷ pieces) = (length s ≤ mtu) × AllFit pieces

take-drop : (n : ℕ) (s : List ℕ) → take n s ++ drop n s ≡ s
take-drop zero s = refl
take-drop (suc n) [] = refl
take-drop (suc n) (c ∷ s) = ap (λ t. c ∷ t) (take-drop n s)

length-take : (n : ℕ) (s : List ℕ) → n ≤ length s → length (take n s) ≡ n
length-take zero s h = refl
length-take (suc n) [] h = absurd (omega arith)
length-take (suc n) (c ∷ s) h = ap suc (length-take n s (omega arith))

length-hexadecimal : (fuel n : ℕ) → length (hexadecimal fuel n) ≤ fuel
unfolding hexadecimal
length-hexadecimal zero n = omega arith
length-hexadecimal (suc fuel) n = elim (Bool-cases (ltb n 16)) [
  | inl one ↦ rw one (omega arith)
  | inr more ↦ rw more (
      omega (
        arith,
        length-append (hexadecimal fuel (n / 16)) (hex_digit (n % 16) ∷ []),
        length-hexadecimal fuel (n / 16),
      ))
]

-- A packet of a command, an address, a length and data fits into the buffer.
length-parts :
    (a b data_ : List ℕ) (n : ℕ)
    → length a ≤ 8
    → length b ≤ 8
    → length data_ ≡ 2 * n
    → length (b'M' ∷ b'0' ∷ b'x' ∷ (a ++ (b',' ∷ (b ++ (b':' ∷ data_))))) < n * 2 + 128
length-parts a b data_ n ha hb hd =
    omega (arith, length-append a (b',' ∷ (b ++ (b':' ∷ data_))), length-append b (b':' ∷ data_))

module _ {C : Type 0} (hex_encode : ℕ → ℕ) (gdb_decode_hex_str : List ℕ → ℕ)
    (gdb_send : List ℕ → C → C) (gdb_recv : C → List ℕ × C) where
  abbrev pub small : ℕ → List ℕ → C → Result (Bool × C)
  small = gdb_memcpy_to_qemu_small hex_encode gdb_decode_hex_str gdb_send gdb_recv

  abbrev packet : ℕ → List ℕ → List ℕ
  packet = memory_packet hex_encode gdb_decode_hex_str gdb_send gdb_recv

  abbrev hex : List ℕ → List ℕ
  hex = hex_bytes hex_encode gdb_decode_hex_str gdb_send gdb_recv

  length-hex : (s : List ℕ) → length (hex s) ≡ 2 * length s
  unfolding hex_bytes
  length-hex [] = refl
  length-hex (b ∷ s) = omega (arith, length-hex s)

  -- The packet for one piece, and whether the reply is `OK`.
  abbrev pub send_one : ℕ → List ℕ → C → Bool × C
  send_one dest s conn =
      let (reply, conn') = gdb_recv (gdb_send (up_to_nul (packet dest s)) conn) in
      (same_text reply (b'O' ∷ b'K' ∷ []), conn')

  -- One piece after the other, each behind the one before it; true if all replies were `OK`.
  abbrev pub send_all : Bool → ℕ → List (List ℕ) → C → Bool × C
  send_all b dest [] conn = (b, conn)
  send_all b dest (s ∷ pieces) conn =
      let (replied, conn') = send_one dest s conn in
      send_all (b && replied) (dest + length s) pieces conn'

  packet-fits : (dest : ℕ) (s : List ℕ) → length (packet dest s) < length s * 2 + 128
  packet-fits dest s =
      length-parts (hexadecimal 8 dest) (hexadecimal 8 (length s)) (hex s) (length s)
        (length-hexadecimal 8 dest) (length-hexadecimal 8 (length s)) (length-hex s)

  small-ok : (dest : ℕ) (s : List ℕ) (conn : C) → small dest s conn ≡ ok (send_one dest s conn)
  unfolding gdb_memcpy_to_qemu_small
  small-ok dest s conn =
      let fits : ltb (length (packet dest s)) (length s * 2 + 128) ≡ true =
        ground (arith, packet-fits dest s) in
      rw fits refl

  abbrev loop : ℕ → Bool → ℕ → List ℕ → C → Result (Bool × C)
  loop = memcpy_loop hex_encode gdb_decode_hex_str gdb_send gdb_recv

  -- Pieces of a string, whatever the replies are.
  abbrev pub Pieces : ℕ → List ℕ → (Bool → C → Result (Bool × C)) → Type 0
  Pieces dest src run =
      (pieces : List (List ℕ)) × (concat pieces ≡ src)
      × AllFit pieces
      × ((b : Bool) (conn : C) → run b conn ≡ ok (send_all b dest pieces conn))

  memcpy_loop-Pieces :
      (fuel dest : ℕ) (src : List ℕ)
      → length src < fuel
      → dest + length src ≤ 2 ^ 32
      → Pieces dest src (λ b conn. loop fuel b dest src conn)
  unfolding memcpy_loop
  memcpy_loop-Pieces zero dest src lt room = absurd (omega arith)
  memcpy_loop-Pieces (suc fuel) dest src lt room = elim (Bool-cases (ltb mtu (length src))) [
    | inl long ↦
        let n : mtu < length src = ground arith in
        let len = length-take mtu src (omega (arith, n)) in
        let wrap : (dest + mtu) % 2 ^ 32 ≡ dest + mtu = omega (arith, n) in
        let (pieces, whole, fit, sent) =
          memcpy_loop-Pieces fuel (dest + mtu) (drop mtu src)
            (omega (arith, n, length-drop mtu src)) (omega (arith, n, length-drop mtu src)) in
        (
          take mtu src ∷ pieces,
          ap (λ t. take mtu src ++ t) whole ∙ take-drop mtu src,
          (omega (arith, len), fit),
          λ b conn.
              let x = send_one dest (take mtu src) conn in
              rw (long, small-ok dest (take mtu src) conn)
                (ap (λ d. loop fuel (b && x.0) d (drop mtu src) x.1) wrap
                  ∙ sent (b && x.0) x.1
                  ∙ ap (λ d. ok (send_all (b && x.0) (dest + d) pieces x.1)) (sym len)),
        )
    | inr short ↦ (
      src ∷ [],
      append-nil src,
      (ground arith, tt),
      λ b conn. rw (short, small-ok dest src conn) refl,
    )
  ]

  -- A copy that ends below 2 ^ 32 is done, whatever the other side replies, in pieces of at most 1500 bytes
  -- that make up the string, each at the address behind the one before it; its result is whether all replies
  -- were `OK`.
  pub gdb_memcpy_to_qemu-Pieces :
      (dest : ℕ) (src : List ℕ)
      → dest + length src ≤ 2 ^ 32
      → (pieces : List (List ℕ)) × (concat pieces ≡ src)
        × AllFit pieces
        × ((conn : C)
            → gdb_memcpy_to_qemu hex_encode gdb_decode_hex_str gdb_send gdb_recv dest src conn
              ≡ ok (send_all true dest pieces conn))
  unfolding gdb_memcpy_to_qemu
  gdb_memcpy_to_qemu-Pieces dest src room =
      let (pieces, whole, fit, sent) =
        memcpy_loop-Pieces (length src + 1) dest src (omega arith) room in
      (pieces, whole, fit, sent true)
