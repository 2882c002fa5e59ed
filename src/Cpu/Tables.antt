-- ===== src/Cpu/Tables.antt =====
-- kernel/cpu/gdt.c and kernel/cpu/idt.c: the descriptors of segments and of interrupts. Tables are
-- functions from an index to an entry; loading them is left out.
pub mod Gates
pub mod Segments
use Prim.Native.Nat.{bit_and, bit_or}
use hydrangea.Prelude.{ℕ, zero, suc, ◌+◌, ◌-◌, ◌*◌, ◌/◌, ◌%◌, ◌^◌, ◌==◌, if◌then◌else◌, update}

-- `GDT_entry_t`
pub record SegmentEntry : Type 0 where
  pub limit_lo : ℕ
  pub base_lo : ℕ
  pub base_mid : ℕ
  pub rights : ℕ
  pub lim_hi_and_flags : ℕ
  pub base_hi : ℕ

abbrev pub gdt_rw : ℕ
gdt_rw = 0x02

abbrev pub gdt_x : ℕ
gdt_x = 0x08

abbrev pub gdt_s : ℕ
gdt_s = 0x10

-- `GDT_RG(3)`
abbrev pub gdt_ring_3 : ℕ
gdt_ring_3 = 0x60

abbrev pub gdt_pr : ℕ
gdt_pr = 0x80

unfoldable pub gdt_set_entry :
    (ℕ → SegmentEntry) → (index base limit rights flags : ℕ) → ℕ → SegmentEntry
gdt_set_entry entries index base limit rights flags = update entries index (record {
  base_lo = bit_and base 0x0000_FFFF % 2 ^ 16;
  base_mid = bit_and base 0x00FF_0000 / 2 ^ 16 % 2 ^ 8;
  base_hi = bit_and base 0xFF00_0000 / 2 ^ 24 % 2 ^ 8;
  limit_lo = bit_and limit 0x0000_FFFF % 2 ^ 16;
  lim_hi_and_flags =
      bit_or (bit_and (bit_and limit 0xFFFF_0000 / 2 ^ 16) 0x0F) (bit_and flags 0xF0) % 2 ^ 8;
  rights = rights;
})

-- The fields of `struct tss_ent` that tss.c sets.
pub record Tss : Type 0 where
  pub esp0 : ℕ
  pub ss0 : ℕ
  pub esp : ℕ
  pub es : ℕ
  pub cs : ℕ
  pub ss : ℕ
  pub ds : ℕ
  pub fs : ℕ
  pub gs : ℕ
  pub iomap : ℕ

-- `sizeof(tss)`
abbrev pub tss_size : ℕ
tss_size = 104

-- `tss_init`, with the task state segment at `address`.
unfoldable pub tss_init :
    Tss → (address : ℕ) → (ℕ → SegmentEntry) → (index ss0 : ℕ) → Tss × (ℕ → SegmentEntry)
tss_init tss address entries index ss0 = (
  record tss {
    ss0 = ss0;
    ss = ss0;
    ds = ss0;
    fs = ss0;
    gs = ss0;
    es = ss0;
    cs = 0x8;
    iomap = tss_size;
  },
  gdt_set_entry entries index address ((address + tss_size) % 2 ^ 32)
      (bit_or (bit_or 1 gdt_x) gdt_pr) 0x40,
)

unfoldable pub tss_set_esp0 : Tss → (esp0 : ℕ) → Tss
tss_set_esp0 tss esp0 = record tss { esp0 = esp0; esp = esp0 }

-- `gdt_init` without the loading
unfoldable pub gdt_init : Tss → (address : ℕ) → (ℕ → SegmentEntry) → Tss × (ℕ → SegmentEntry)
gdt_init tss address entries =
    let code = bit_or (bit_or gdt_rw gdt_x) gdt_s in
    let readable = bit_or gdt_rw gdt_s in
    let entries = gdt_set_entry entries 0 0x0 0x0 0 0 in
    let entries = gdt_set_entry entries 1 0x0 0xFFFF_FFFF (bit_or code gdt_pr) 0xC0 in
    let entries = gdt_set_entry entries 2 0x0 0xFFFF_FFFF (bit_or readable gdt_pr) 0xC0 in
    let entries =
      gdt_set_entry entries 3 0x0 0xFFFF_FFFF (bit_or (bit_or code gdt_ring_3) gdt_pr) 0xC0 in
    let entries =
      gdt_set_entry entries 4 0x0 0xFFFF_FFFF (bit_or (bit_or readable gdt_ring_3) gdt_pr) 0xC0 in
    tss_init tss address entries 5 0x10

-- `IDT_entry`
pub record GateEntry : Type 0 where
  pub base_lo : ℕ
  pub segsel : ℕ
  pub zero_byte : ℕ
  pub flags : ℕ
  pub base_hi : ℕ

unfoldable pub idt_set_entry : (ℕ → GateEntry) → (index base segsel flags : ℕ) → ℕ → GateEntry
idt_set_entry entries index base segsel flags = update entries (index % 2 ^ 8) (record {
  base_lo = bit_and base 0xFFFF;
  base_hi = bit_and (base / 2 ^ 16) 0xFFFF;
  segsel = segsel;
  zero_byte = 0;
  flags = flags;
})

-- `I_PRESENT | I_GATETYPE_INT32`
abbrev pub int_gate : ℕ
int_gate = 0x8E

-- `I_PRESENT | I_DPL(3) | I_GATETYPE_TRAP32`
abbrev pub trap_gate : ℕ
trap_gate = 0xEF

-- The calls of `idt_init` for the `n` handlers from `first` on: the vectors from `vector` on.
unfoldable pub set_gates :
    (ℕ → GateEntry) → (handlers : ℕ → ℕ) → (vector first n : ℕ) → ℕ → GateEntry
set_gates entries handlers vector first zero = entries
set_gates entries handlers vector first (suc n) =
    set_gates (idt_set_entry entries vector (handlers first) 0x08 int_gate) handlers (suc vector)
      (suc first) n

-- A cleared entry
abbrev pub no_gate : GateEntry
no_gate = record { base_lo = 0; segsel = 0; zero_byte = 0; flags = 0; base_hi = 0 }

-- `idt_init` without the loading; `isr n` and `irq n` are the addresses of the handlers.
unfoldable pub idt_init : (isr irq : ℕ → ℕ) → ℕ → GateEntry
idt_init isr irq =
    let entries = set_gates (λ i. no_gate) isr 0 0 32 in
    let entries = set_gates entries irq 32 0 16 in idt_set_entry entries 128 (isr 32) 0x08 trap_gate
