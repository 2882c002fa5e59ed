-- ===== src/Tests/Pipe.antt =====
-- The ring buffer of pipe.c at a ring of three slots.
use hydrangea.Prelude.{◌≡◌, refl, [], ◌∷◌, arith}
use hydrangea.Pipe.{RingBuffer, make_rb, done, waiting, rb_read, rb_write, rb_vfs_write}
use hydrangea.Pipe.Fifo.{IsValid, contents, Outcome, rb_read-Outcome, rb_read-rb_write}

-- 8, then 9, round the end of the buffer
abbrev wrapped : RingBuffer
wrapped = record {
  buffer = 9 ∷ 7 ∷ 8 ∷ [];
  read_index = 2;
  write_index = 1;
  size = 3;
  valid_data_size = 2;
}

abbrev fresh : RingBuffer
fresh = record {
  buffer = 0 ∷ 0 ∷ 0 ∷ [];
  read_index = 0;
  write_index = 0;
  size = 3;
  valid_data_size = 0;
}

abbrev full : RingBuffer
full = record {
  buffer = 9 ∷ 7 ∷ 8 ∷ [];
  read_index = 2;
  write_index = 2;
  size = 3;
  valid_data_size = 3;
}

wrapped-IsValid : IsValid wrapped
wrapped-IsValid = omega arith

fresh-IsValid : IsValid fresh
fresh-IsValid = omega arith

full-IsValid : IsValid full
full-IsValid = omega arith

-- A fresh pipe holds what its memory held where `valid_data_size` lies.
make_rb_stale : (make_rb (0 ∷ 0 ∷ 0 ∷ []) 17 3).valid_data_size ≡ 17
unfolding make_rb
make_rb_stale = refl

vfs_write_count : (rb_vfs_write fresh 5 (1 ∷ 2 ∷ [])).1 ≡ 2
unfolding rb_vfs_write
vfs_write_count = refl

rb_read-Outcome_example : Outcome wrapped 3 (rb_read wrapped 3)
rb_read-Outcome_example = rb_read-Outcome 3 wrapped wrapped-IsValid

rb_read-rb_write_example :
    (end : RingBuffer) × (rb_read (rb_write fresh (1 ∷ 2 ∷ [])) 2 ≡ done (1 ∷ 2 ∷ []) end)
    × (contents end ≡ [])
rb_read-rb_write_example = rb_read-rb_write fresh (1 ∷ 2 ∷ []) fresh-IsValid refl (omega arith)

waits :
    rb_read wrapped 3
    ≡ waiting (8 ∷ 9 ∷ []) 1 (record wrapped { read_index = 1; valid_data_size = 0 })
unfolding rb_read
waits = refl
