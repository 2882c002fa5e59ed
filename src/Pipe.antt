-- ===== src/Pipe.antt =====
-- kernel/fs/pipe.c: the ring buffer behind pipes and standard input.
-- The 8-bit indices and the 32-bit sizes keep their wrap-around. Waiting for data (`hlt` until an
-- interrupt handler has written) is the outcome `waiting`: it holds what was read so far.
pub mod Fifo
pub mod Window
use hydrangea.Prelude.{
  ℕ, zero, suc, ◌+◌, ◌-◌, ◌%◌, ◌^◌, Bool, List, [], ◌∷◌, ltb, ◌==◌, if◌then◌else◌, get_or, set,
  length,
}

-- `ring_buffer_t`; a byte is a number.
pub record RingBuffer : Type 0 where
  pub buffer : List ℕ
  pub read_index : ℕ
  pub write_index : ℕ
  pub size : ℕ
  pub valid_data_size : ℕ

-- `make_rb`: `block` is what `kmalloc(size)` returns, and `stale` the word that the fresh structure
-- holds where `valid_data_size` lies, which the function does not set.
unfoldable pub make_rb : (block : List ℕ) (stale size : ℕ) → RingBuffer
make_rb block stale size = record {
  buffer = block;
  read_index = 0;
  write_index = 0;
  size = size;
  valid_data_size = stale;
}

-- What `rb_read_byte` does once there is a byte.
pub take_byte : RingBuffer → ℕ × RingBuffer
take_byte rb = (
  get_or rb.buffer rb.read_index 0,
  record rb {
    read_index = (rb.read_index + 1) % 2 ^ 8 % rb.size;
    valid_data_size = (rb.valid_data_size + 2 ^ 32 - 1) % 2 ^ 32;
  },
)

pub data ByteRead : Type 0 where
  got : ℕ → RingBuffer → ByteRead
  halted : ByteRead

pub rb_read_byte : RingBuffer → ByteRead
unfolding take_byte
rb_read_byte rb =
    let (byte, rb') = take_byte rb in if rb.valid_data_size == 0 then halted else got byte rb'

pub rb_write_byte : RingBuffer → ℕ → RingBuffer
rb_write_byte rb byte =
    let valid = (rb.valid_data_size + 1) % 2 ^ 32 in
    record rb {
      buffer = set rb.buffer rb.write_index byte;
      write_index = (rb.write_index + 1) % 2 ^ 8 % rb.size;
      valid_data_size = if ltb rb.size valid then rb.size else valid;
    }

pub data Read : Type 0 where
  done : List ℕ → RingBuffer → Read
  waiting : List ℕ → ℕ → RingBuffer → Read

abbrev pub prepend : ℕ → Read → Read
prepend byte (done bytes rb) = done (byte ∷ bytes) rb
prepend byte (waiting bytes left rb) = waiting (byte ∷ bytes) left rb

-- `rb_read`: the loop over `size` bytes. With `size == 0` it returns at once, as the code does.
-- `waiting bytes left rb`: `left` bytes are still wanted.
unfoldable pub rb_read : RingBuffer → ℕ → Read
unfolding rb_read_byte
rb_read rb zero = done [] rb
rb_read rb (suc n) = elim (rb_read_byte rb) [
  | got byte rb' ↦ prepend byte (rb_read rb' n)
  | halted ↦ waiting [] (suc n) rb
]

pub rb_write : RingBuffer → List ℕ → RingBuffer
unfolding rb_write_byte
rb_write rb [] = rb
rb_write rb (byte ∷ bytes) = rb_write (rb_write_byte rb byte) bytes

-- `rb_vfs_read` and `rb_vfs_write` ignore the offset; writing returns the number of bytes.
pub rb_vfs_read : RingBuffer → (offset size : ℕ) → Read
unfolding rb_read
rb_vfs_read rb offset size = rb_read rb size

unfoldable pub rb_vfs_write : RingBuffer → (offset : ℕ) → List ℕ → RingBuffer × ℕ
unfolding rb_write
rb_vfs_write rb offset bytes = (rb_write rb bytes, length bytes)
