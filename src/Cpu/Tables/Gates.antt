-- ===== src/Cpu/Tables/Gates.antt =====
-- Where the interrupts go after `idt_init`.
use Prim.Native.Nat.{bit_and}
use hydrangea.Prelude.{
  ℕ, zero, suc, ◌+◌, ◌-◌, ◌*◌, ◌/◌, ◌%◌, ◌^◌, ◌≤◌, ◌<◌, ◌≡◌, ◌≢◌, refl, ap, ◌∙◌, arith, ltb, leb,
  ◌&&◌, if◌then◌else◌,
}
use hydrangea.Prelude.Bits.Fields.{bit_and-low}
use hydrangea.Cpu.Tables.{GateEntry, no_gate, idt_set_entry, set_gates, idt_init}

-- The handler that the processor takes from a gate.
abbrev pub offset : GateEntry → ℕ
offset e = e.base_hi * 2 ^ 16 + e.base_lo

-- The gate of a handler in the kernel's code segment.
abbrev pub gate : (base flags : ℕ) → GateEntry
gate base flags = record {
  base_lo = bit_and base 0xFFFF;
  base_hi = bit_and (base / 2 ^ 16) 0xFFFF;
  segsel = 0x08;
  zero_byte = 0;
  flags = flags;
}

low_half : (x : ℕ) → bit_and x 0xFFFF ≡ x % 2 ^ 16
low_half x =
    let e : x ≡ x / 2 ^ 16 * 2 ^ 16 + x % 2 ^ 16 = omega arith in
    ap (λ z. bit_and z 0xFFFF) e ∙ bit_and-low 16 (x / 2 ^ 16) (x % 2 ^ 16) (omega arith)

offset-gate : (base flags : ℕ) → base < 2 ^ 32 → offset (gate base flags) ≡ base
offset-gate base flags h = omega (arith, low_half base, low_half (base / 2 ^ 16))

set_gates_lem :
    (entries : ℕ → GateEntry) (handlers : ℕ → ℕ) (vector first n i : ℕ)
    → vector + n ≤ 256
    → set_gates entries handlers vector first n i ≡ (
        if leb vector i && ltb i (vector + n)
        then gate (handlers (first + (i - vector))) 0x8E
        else entries i)
unfolding set_gates idt_set_entry
set_gates_lem entries handlers vector first zero i h = ground arith
set_gates_lem entries handlers vector first (suc n) i h =
    let rest =
      set_gates_lem (idt_set_entry entries vector (handlers first) 0x08 0x8E) handlers (suc vector)
        (suc first) n i (omega arith) in
    let own : vector % 2 ^ 8 ≡ vector = omega arith in
    let next : suc vector ≤ i → suc first + (i - suc vector) ≡ first + (i - vector) =
      λ l. omega (arith, l) in
    let same : i ≡ vector → first + (i - vector) ≡ first = λ e. omega (arith, e) in
    ground (arith, rest, own, next, same)

entry_at :
    (isr irq : ℕ → ℕ) (i : ℕ)
    → (i < 32 → idt_init isr irq i ≡ gate (isr i) 0x8E)
      × (32 ≤ i → i < 48 → idt_init isr irq i ≡ gate (irq (i - 32)) 0x8E)
      × (i ≡ 128 → idt_init isr irq i ≡ gate (isr 32) 0xEF)
      × (48 ≤ i → i ≢ 128 → idt_init isr irq i ≡ no_gate)
unfolding idt_init idt_set_entry
entry_at isr irq i =
    let exceptions = set_gates (λ n. no_gate) isr 0 0 32 in
    let first = set_gates_lem (λ n. no_gate) isr 0 0 32 i (omega arith) in
    let second = set_gates_lem exceptions irq 32 0 16 i (omega arith) in
    let zero_off : 0 + (i - 0) ≡ i = omega arith in
    let off : 0 + (i - 32) ≡ i - 32 = omega arith in
    (
      (λ l. ground (arith, first, second, zero_off, l)),
      (λ l h. ground (arith, first, second, off, l, h)),
      (λ e. rw e refl),
      λ l ne. ground (arith, first, second, l, ne),
    )

-- After `idt_init` the first 32 vectors lead to the handlers of exceptions, the next 16 to those of the
-- interrupt requests, and vector 128 to the system calls, the only gate that is open to user mode; the
-- processor finds each handler's address in its gate. All other gates are absent.
pub idt_init-gates :
    (isr irq : ℕ → ℕ) (i : ℕ)
    → ((n : ℕ) → isr n < 2 ^ 32)
    → ((n : ℕ) → irq n < 2 ^ 32)
    → let e = idt_init isr irq i in
      (i < 32 → (offset e ≡ isr i) × (e.segsel ≡ 0x08) × (e.flags ≡ 0x8E))
      × (32 ≤ i → i < 48 → (offset e ≡ irq (i - 32)) × (e.segsel ≡ 0x08) × (e.flags ≡ 0x8E))
      × (i ≡ 128 → (offset e ≡ isr 32) × (e.segsel ≡ 0x08) × (e.flags ≡ 0xEF))
      × (48 ≤ i → i ≢ 128 → e.flags ≡ 0)
idt_init-gates isr irq i hs hr =
    let (exception, request, call, absent) = entry_at isr irq i in
    (
      (λ l. rw (exception l) (offset-gate (isr i) 0x8E (hs i), refl, refl)),
      (λ l h. rw (request l h) (offset-gate (irq (i - 32)) 0x8E (hr (i - 32)), refl, refl)),
      (λ e. rw (call e) (offset-gate (isr 32) 0xEF (hs 32), refl, refl)),
      λ l ne. rw (absent l ne) refl,
    )
