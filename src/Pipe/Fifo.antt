-- ===== src/Pipe/Fifo.antt =====
-- The ring buffer of pipe.c as a first-in first-out queue: what it holds, and what reading and
-- writing do to that.
use hydrangea.Prelude.{
  ℕ, zero, suc, ◌+◌, ◌-◌, ◌%◌, ◌^◌, ◌≤◌, ◌<◌, ◌≡◌, refl, ◌≢◌, ap, sym, ◌∙◌, List, [], ◌∷◌, ◌++◌,
  false, arith, length, set, take, drop, ltb, ◌==◌, length-set, ne→not_==, if◌then◌else◌,
}
use mathlib.Core.List.{append_assoc, append-nil}
use mathlib.Core.Path.{subst}
use native.Mathlib.Decide.{ℕ_discrete}
use native.Mathlib.Nat.{mod-add-mod, add-mod_right, mod-eq_of_lt}
use hydrangea.Pipe.{
  RingBuffer, take_byte, rb_write_byte, Read, done, waiting, prepend, rb_read, rb_write,
}
use hydrangea.Pipe.Window.{held, length-held, slot_shift, index_step, held-set_end, held-set_start}

-- Both indices lie inside the buffer, and the write index stands right behind the bytes held.
pub record IsValid (rb : RingBuffer) : Type 0 where
  pub small : rb.size ≤ 2 ^ 8
  pub storage : rb.size ≤ length rb.buffer
  pub read_in : rb.read_index < rb.size
  pub valid_le : rb.valid_data_size ≤ rb.size
  pub aligned : rb.write_index ≡ (rb.read_index + rb.valid_data_size) % rb.size

-- the bytes in the ring, oldest first
abbrev pub contents : RingBuffer → List ℕ
contents rb = held rb.buffer rb.size rb.read_index rb.valid_data_size

pub length-contents : (rb : RingBuffer) → length (contents rb) ≡ rb.valid_data_size
length-contents rb = length-held rb.buffer rb.size rb.read_index rb.valid_data_size

-- A write with room appends the byte.
pub write_byte_room :
    (rb : RingBuffer) (byte : ℕ)
    → IsValid rb
    → rb.valid_data_size < rb.size
    → IsValid (rb_write_byte rb byte)
      × (contents (rb_write_byte rb byte) ≡ contents rb ++ (byte ∷ []))
      × ((rb_write_byte rb byte).valid_data_size ≡ rb.valid_data_size + 1)
      × ((rb_write_byte rb byte).size ≡ rb.size)
unfolding rb_write_byte
write_byte_room rb byte v room =
    let w = rb.write_index in
    let r = rb.read_index in
    let n = rb.valid_data_size in
    let s = rb.size in
    let inside : w < s = omega (arith, v.aligned, v.read_in, v.valid_le) in
    let grown : (if ltb s ((n + 1) % 2 ^ 32) then s else (n + 1) % 2 ^ 32) ≡ suc n =
      ground (arith, v.small) in
    let placed : (w + 1) % 2 ^ 8 % s ≡ (r + suc n) % s =
      index_step s w inside v.small
      ∙ ap (λ k. (k + 1) % s) v.aligned
      ∙ mod-add-mod (r + n) s 1
      ∙ ap (λ k. k % s) (omega arith) in
    (
      rw grown (record {
        small = v.small;
        storage = omega (arith, v.storage, length-set rb.buffer w byte);
        read_in = v.read_in;
        valid_le = room;
        aligned = placed;
      }),
      rw grown (held-set_end rb.buffer s byte w r n v.storage v.read_in room v.aligned),
      grown ∙ omega arith,
      refl,
    )

-- A read of a ring that holds a byte takes the oldest one.
pub take_byte_lem :
    (rb : RingBuffer)
    → IsValid rb
    → 0 < rb.valid_data_size
    → IsValid (take_byte rb).1
      × (contents rb ≡ (take_byte rb).0 ∷ contents (take_byte rb).1)
      × ((take_byte rb).1.valid_data_size + 1 ≡ rb.valid_data_size)
      × ((take_byte rb).1.size ≡ rb.size)
unfolding take_byte
take_byte_lem rb v some_byte =
    let r = rb.read_index in
    let n = rb.valid_data_size in
    let s = rb.size in
    let before : n ≡ suc (n - 1) = omega (arith, some_byte) in
    let less : (n + 2 ^ 32 - 1) % 2 ^ 32 ≡ n - 1 = omega (arith, some_byte, v.valid_le, v.small) in
    let moved : (r + 1) % 2 ^ 8 % s ≡ (r + 1) % s = index_step s r v.read_in v.small in
    let behind : rb.write_index ≡ ((r + 1) % s + (n - 1)) % s =
      v.aligned ∙ ap (λ k. (r + k) % s) before ∙ sym (slot_shift s r (n - 1)) in
    (
      rw (less, moved)
          (record {
            small = v.small;
            storage = v.storage;
            read_in = omega (arith, v.read_in);
            valid_le = omega (arith, v.valid_le);
            aligned = behind;
          }),
      rw (less, moved) (ap (held rb.buffer s r) before),
      omega (arith, less, some_byte),
      refl,
    )

-- Writing bytes that fit into a valid ring appends them in order, and keeps the ring valid and its
-- size.
pub rb_write-append :
    (bytes : List ℕ) (rb : RingBuffer)
    → IsValid rb
    → rb.valid_data_size + length bytes ≤ rb.size
    → IsValid (rb_write rb bytes)
      × (contents (rb_write rb bytes) ≡ contents rb ++ bytes)
      × ((rb_write rb bytes).size ≡ rb.size)
unfolding rb_write
rb_write-append [] rb v room = (v, sym (append-nil (contents rb)), refl)
rb_write-append (b ∷ bs) rb v room =
    let (v', added, count, same) = write_byte_room rb b v (omega arith) in
    let (valid, all, size) =
      rb_write-append bs (rb_write_byte rb b) v' (omega (arith, count, same)) in
    (valid, all ∙ ap (λ l. l ++ bs) added ∙ append_assoc (contents rb) (b ∷ []) bs, size ∙ same)

-- What a read of `n` bytes leaves: all of them in order, or all that there were and a wait.
abbrev pub Outcome : RingBuffer → ℕ → Read → Type 0
Outcome rb n (done bytes rb') =
    (n ≤ rb.valid_data_size)
    × (bytes ≡ take n (contents rb))
    × (contents rb' ≡ drop n (contents rb))
    × IsValid rb'
    × (rb'.size ≡ rb.size)
Outcome rb n (waiting bytes left rb') =
    (rb.valid_data_size + left ≡ n)
    × (0 < left)
    × (bytes ≡ contents rb)
    × (contents rb' ≡ [])
    × IsValid rb'
    × (rb'.size ≡ rb.size)

held_zero : (buffer : List ℕ) (size i n : ℕ) → n ≡ 0 → held buffer size i n ≡ []
held_zero buffer size i n e = rw e

Outcome-prepend :
    (rb rb' : RingBuffer) (byte n : ℕ)
    → contents rb ≡ byte ∷ contents rb'
    → rb'.valid_data_size + 1 ≡ rb.valid_data_size
    → rb'.size ≡ rb.size
    → (r : Read) → Outcome rb' n r
    → Outcome rb (suc n) (prepend byte r)
Outcome-prepend rb rb' byte n front count same (done bytes end) (fits, taken, left, valid, size) =
    (omega arith, rw front (ap (λ l. byte ∷ l) taken), rw front left, valid, size ∙ same)
Outcome-prepend rb rb' byte n front count same (waiting bytes k end)
      (sum, more, taken, left, valid, size) =
    (omega arith, more, rw front (ap (λ l. byte ∷ l) taken), left, valid, size ∙ same)

rb_read_empty :
    (rb : RingBuffer) (n : ℕ) → rb.valid_data_size ≡ 0 → rb_read rb (suc n) ≡ waiting [] (suc n) rb
unfolding rb_read
rb_read_empty rb n e = ground arith

rb_read_more :
    (rb : RingBuffer) (n : ℕ)
    → rb.valid_data_size ≢ 0
    → rb_read rb (suc n) ≡ prepend (take_byte rb).0 (rb_read (take_byte rb).1 n)
unfolding rb_read
rb_read_more rb n ne =
    let test : (rb.valid_data_size == 0) ≡ false = ne→not_== _ _ ne in rw (test, rb_read)

-- `rb_read` of a valid ring: if the ring holds enough, it returns the oldest bytes in order and
-- keeps the rest; if not, it takes all there is and waits for exactly the bytes still missing.
pub rb_read-Outcome : (n : ℕ) (rb : RingBuffer) → IsValid rb → Outcome rb n (rb_read rb n)
unfolding rb_read
rb_read-Outcome zero rb v = (omega arith, refl, refl, v, refl)
rb_read-Outcome (suc n) rb v = elim (ℕ_discrete rb.valid_data_size 0) [
  | yes e ↦
      let gone = held_zero rb.buffer rb.size rb.read_index rb.valid_data_size e in
      subst (Outcome rb (suc n)) (sym (rb_read_empty rb n e))
        (omega arith, omega arith, sym gone, gone, v, refl)
  | no ne ↦
      let (v', front, count, same) = take_byte_lem rb v (omega arith) in
      subst (Outcome rb (suc n)) (sym (rb_read_more rb n ne)) (
        Outcome-prepend rb (take_byte rb).1 (take_byte rb).0 n front count same
          (rb_read (take_byte rb).1 n) (rb_read-Outcome n (take_byte rb).1 v'))
]

-- A write to a full valid ring puts the new byte in the place of the oldest one, where the reader finds it
-- before all the others, and leaves the write index one slot ahead of the read index.
pub rb_write_byte-full :
    (rb : RingBuffer) (byte : ℕ)
    → IsValid rb
    → rb.valid_data_size ≡ rb.size
    → (contents (rb_write_byte rb byte) ≡ byte ∷ drop 1 (contents rb))
      × ((rb_write_byte rb byte).write_index ≡ (rb.read_index + 1) % rb.size)
unfolding rb_write_byte
rb_write_byte-full rb byte v full =
    let s = rb.size in
    let r = rb.read_index in
    let kept : (if ltb s ((rb.valid_data_size + 1) % 2 ^ 32)
          then s
          else (rb.valid_data_size + 1) % 2 ^ 32)
        ≡ suc (s - 1) =
      ground (arith, v.small, v.read_in) in
    let at : rb.write_index ≡ r =
      v.aligned ∙ ap (λ k. (r + k) % s) full ∙ add-mod_right r s ∙ mod-eq_of_lt v.read_in in
    let n : rb.valid_data_size ≡ suc (s - 1) = omega (arith, v.read_in) in
    let first : held (set rb.buffer rb.write_index byte) s r (suc (s - 1))
        ≡ byte ∷ held rb.buffer s ((r + 1) % s) (s - 1) =
      subst
        (λ w.
          held (set rb.buffer w byte) s r (suc (s - 1))
          ≡ byte ∷ held rb.buffer s ((r + 1) % s) (s - 1))
        (sym at)
        (held-set_start rb.buffer s byte r (s - 1) v.storage v.read_in
          (omega (arith, v.read_in))) in
    (
      rw kept (first ∙ ap (λ k. byte ∷ drop 1 (held rb.buffer s r k)) (sym n)),
      rw at (index_step s r v.read_in v.small),
    )

Returned : RingBuffer → ℕ → Read → Type 0
Returned rb n r =
    (end : RingBuffer) × (r ≡ done (take n (contents rb)) end)
    × (contents end ≡ drop n (contents rb))
    × IsValid end

returned :
    (rb : RingBuffer) (n : ℕ) (r : Read) → Outcome rb n r → n ≤ rb.valid_data_size → Returned rb n r
unfolding Returned
returned rb n (done bytes end) (fits, taken, left, valid, size) enough =
    (end, ap (λ b. done b end) taken, left, valid)
returned rb n (waiting bytes k end) (sum, more, taken, left, valid, size) enough =
    absurd (omega arith)

take_all : (xs : List ℕ) (n : ℕ) → length xs ≡ n → take n xs ≡ xs
take_all [] zero e = refl
take_all [] (suc n) e = refl
take_all (x ∷ xs) zero e = absurd (omega arith)
take_all (x ∷ xs) (suc n) e = ap (λ l. x ∷ l) (take_all xs n (omega arith))

drop_all : (xs : List ℕ) (n : ℕ) → length xs ≡ n → drop n xs ≡ []
drop_all [] zero e = refl
drop_all [] (suc n) e = refl
drop_all (x ∷ xs) zero e = absurd (omega arith)
drop_all (x ∷ xs) (suc n) e = drop_all xs n (omega arith)

-- Bytes that are written to a valid empty ring, and fit, are read back in order and leave the ring
-- empty.
pub rb_read-rb_write :
    (rb : RingBuffer) (bytes : List ℕ)
    → IsValid rb
    → contents rb ≡ []
    → length bytes ≤ rb.size
    → (end : RingBuffer) × (rb_read (rb_write rb bytes) (length bytes) ≡ done bytes end)
      × (contents end ≡ [])
unfolding Returned
rb_read-rb_write rb bytes v empty room =
    let none_held : rb.valid_data_size ≡ 0 = sym (length-contents rb) ∙ ap length empty in
    let (v', all, size) = rb_write-append bytes rb v (omega arith) in
    let w = rb_write rb bytes in
    let k = length bytes in
    let held_now : contents w ≡ bytes = all ∙ ap (λ l. l ++ bytes) empty in
    let count : w.valid_data_size ≡ k = sym (length-contents w) ∙ ap length held_now in
    let (end, read, left, _) = returned w k (rb_read w k) (rb_read-Outcome k w v') (omega arith) in
    (
      end,
      read ∙ ap (λ l. done l end) (take_all (contents w) k (ap length held_now) ∙ held_now),
      left ∙ drop_all (contents w) k (ap length held_now),
    )
