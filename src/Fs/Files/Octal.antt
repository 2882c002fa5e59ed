-- ===== src/Fs/Files/Octal.antt =====
-- The sizes in the headers of a tar archive, and the way from one header to the next (initrd.c).
use hydrangea.Prelude.{ℕ, zero, suc, ◌+◌, ◌-◌, ◌*◌, ◌/◌, ◌%◌, ◌^◌, ◌≤◌, ◌<◌, ◌≡◌, ap, ◌∙◌, arith}
use hydrangea.Libk.Bytes.{Memory}
use hydrangea.Fs.Files.{add_digits, tar_get_size, next_header}

-- The number that the first `n` octal digits make.
abbrev pub octal : Memory → (input n : ℕ) → ℕ
octal m input zero = 0
octal m input (suc n) = octal m input n * 8 + (m (input + n) - 48)

-- A factor of a product, up to multiples of 2^32.
wrapped : (v a q b : ℕ) → a + 2 ^ 32 * q ≡ b → v * a + 2 ^ 32 * (v * q) ≡ v * b
wrapped zero a q b e = omega arith
wrapped (suc v) a q b e = omega (arith, wrapped v a q b e)

eightfold : (v d c : ℕ) → (v * 8 + d) * c ≡ v * (c * 8) + d * c
eightfold zero d c = ap (λ z. z * c) {x = 0 * 8 + d} {y = d} (omega arith) ∙ omega arith
eightfold (suc v) d c =
    let e : suc v * 8 + d ≡ suc (suc (suc (suc (suc (suc (suc (suc (v * 8 + d)))))))) =
      omega arith in
    ap (λ z. z * c) e ∙ omega (arith, eightfold v d c)

add_digits_lem :
    (m : Memory) (input j size count : ℕ)
    → ((i : ℕ) → i < j → (48 ≤ m (input + i)) × (m (input + i) < 56))
    → size < 2 ^ 32
    → add_digits m input j size count ≡ (size + octal m input j * count) % 2 ^ 32
unfolding add_digits
add_digits_lem m input zero size count digit h = omega arith
add_digits_lem m input (suc j) size count digit h =
    let v = octal m input j in
    let d = m (input + j) - 48 in
    let c = count * 8 % 2 ^ 32 in
    let range = digit j (omega arith) in
    let wrap : (m (input + j) + 2 ^ 32 - 48) % 2 ^ 32 ≡ d = omega (arith, range) in
    let rest =
      add_digits_lem m input j ((size + d * count % 2 ^ 32) % 2 ^ 32) c
        (λ i l. digit i (omega arith)) (omega arith) in
    rw wrap (
      rest
      ∙ omega
          (arith, wrapped v c (count * 8 / 2 ^ 32) (count * 8) (omega arith), eightfold v d count))

-- `tar_get_size` is the value of the eleven octal digits, modulo 2^32.
pub tar_get_size-octal :
    (m : Memory) (input : ℕ)
    → ((i : ℕ) → i < 11 → (48 ≤ m (input + i)) × (m (input + i) < 56))
    → tar_get_size m input ≡ octal m input 11 % 2 ^ 32
unfolding tar_get_size
tar_get_size-octal m input digit =
    add_digits_lem m input 11 0 1 digit (omega arith)
    ∙ ap (λ z. z % 2 ^ 32) {x = 0 + octal m input 11 * 1} {y = octal m input 11} (omega arith)

-- The next header lies behind the 512 bytes of this one and the file's bytes, rounded up to whole blocks
-- of 512, for an archive that ends below 4 GiB.
pub next_header_lem :
    (addr size : ℕ)
    → addr + 512 + (size + 511) / 512 * 512 < 2 ^ 32
    → next_header addr size ≡ addr + 512 + (size + 511) / 512 * 512
unfolding next_header
next_header_lem addr size fits = ground (arith, fits)
