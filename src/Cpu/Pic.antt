-- ===== src/Cpu/Pic.antt =====
-- kernel/cpu/pic.c and kernel/cpu/irq.c: the two interrupt controllers and the dispatch of requests.
-- `outputs` are the bytes written to ports, the newest first; `io_inb` answers a read from them.
pub mod Masks
use Prim.Native.Nat.{bit_and, bit_or}
use hydrangea.Prelude.{
  ℕ, ◌+◌, ◌-◌, ◌%◌, ◌^◌, ◌&&◌, List, [], ◌∷◌, ltb, ◌==◌, not, if◌then◌else◌, update,
}

abbrev pub Outputs : Type 0
Outputs = List (ℕ × ℕ)

abbrev pub pic_1_cmd : ℕ
pic_1_cmd = 0x20

abbrev pub pic_1_mask : ℕ
pic_1_mask = 0x21

abbrev pub pic_2_cmd : ℕ
pic_2_cmd = 0xA0

abbrev pub pic_2_mask : ℕ
pic_2_mask = 0xA1

unfoldable pub pic_init : Outputs → Outputs
pic_init o =
    (pic_2_mask, 0xFF)
    ∷ (pic_1_mask, 0xFB)
    ∷ (pic_2_mask, 0x01)
    ∷ (pic_1_mask, 0x01)
    ∷ (pic_2_mask, 0x02)
    ∷ (pic_1_mask, 0x04)
    ∷ (pic_2_mask, 0x28)
    ∷ (pic_1_mask, 0x20)
    ∷ (pic_2_cmd, 0x11)
    ∷ (pic_1_cmd, 0x11)
    ∷ o

unfoldable pub pic_set_mask : Outputs → (pic mask : ℕ) → Outputs
pic_set_mask o pic mask =
    if not (pic == 1) && not (pic == 2)
    then o
    else (if pic == 1 then pic_1_mask else pic_2_mask, mask) ∷ o

module _ (io_inb : Outputs → (port : ℕ) → ℕ) where
  unfoldable pub pic_get_mask : Outputs → (pic : ℕ) → ℕ
  pic_get_mask o pic =
      if not (pic == 1) && not (pic == 2)
      then 0
      else io_inb o (if pic == 1 then pic_1_mask else pic_2_mask)

  unfoldable pub pic_mask : Outputs → (irq : ℕ) → Outputs
  pic_mask o irq =
      let pic = if ltb irq 8 then 1 else 2 in
      let irq = if ltb irq 8 then irq else irq - 8 in
      pic_set_mask o pic (bit_or (pic_get_mask o pic) (2 ^ irq) % 2 ^ 8)

  unfoldable pub pic_unmask : Outputs → (irq : ℕ) → Outputs
  pic_unmask o irq =
      let pic = if ltb irq 8 then 1 else 2 in
      let irq = if ltb irq 8 then irq else irq - 8 in
      pic_set_mask o pic (bit_and (pic_get_mask o pic) (2 ^ 32 - 1 - 2 ^ irq) % 2 ^ 8)

  unfoldable pub pic_eoi : Outputs → (irq : ℕ) → Outputs
  pic_eoi o irq = let o = if ltb irq 8 then o else (pic_2_cmd, 0x20) ∷ o in (pic_1_cmd, 0x20) ∷ o

  unfoldable pub pic_is_irq7_sus : Outputs → ℕ × Outputs
  pic_is_irq7_sus o = let o = (pic_1_cmd, 0x0B) ∷ o in (bit_and (io_inb o pic_1_cmd) 0x80, o)

  unfoldable pub pic_is_irq15_sus : Outputs → ℕ × Outputs
  pic_is_irq15_sus o =
      let o = (pic_2_cmd, 0x0B) ∷ o in
      let sus = bit_and (io_inb o pic_2_cmd) 0x80 in
      (sus, if sus == 0 then o else (pic_1_cmd, 0x20) ∷ o)

  -- `irq_common_handler`: the handler that is called, 0 for none.
  unfoldable pub irq_common_handler : (irq_handlers : ℕ → ℕ) → Outputs → (int_num : ℕ) → ℕ × Outputs
  irq_common_handler irq_handlers o int_num =
      let irq = (int_num + 2 ^ 32 - 32) % 2 ^ 8 in
      let (sus_7, o_7) = pic_is_irq7_sus o in
      let o = if irq == 7 then o_7 else o in
      let (sus_15, o_15) = pic_is_irq15_sus o in
      if irq == 7 && not (sus_7 == 0)
      then (0, o)
      else if irq == 15
      then (if sus_15 == 0 then (irq_handlers irq, pic_eoi o_15 irq) else (0, o_15))
      else (irq_handlers irq, pic_eoi o irq)

-- `irq_register`
unfoldable pub irq_register : (irq_handlers : ℕ → ℕ) → (irq handler : ℕ) → ℕ → ℕ
irq_register irq_handlers irq handler = update irq_handlers irq handler
