-- ===== src/Drivers/Ps2/Stuck.antt =====
-- What the PS/2 driver reports when the controller does not get ready, or the device does not answer.
use Prim.Native.Nat.{bit_and}
use hydrangea.Prelude.{
  ℕ, zero, suc, ◌-◌, ◌^◌, ◌≡◌, ◌≢◌, refl, arith, ◌==◌, ◌∷◌, ne→not_==, Bool-cases, inl, inr,
}
use hydrangea.Drivers.Ports.{wrote, asked, Log, Device}
use hydrangea.Drivers.Ps2.{
  ps2_data, ps2_status, ps2_ack, poll, ps2_outb, ps2_inb, try_cmd, to_second, ps2_dev_cmd,
}

poll-stuck :
    (answer : Device) (mask t : ℕ) (log : Log)
    → ((log : Log) → bit_and (answer log ps2_status) mask ≢ 0)
    → (poll answer mask t log).0 ≡ 2 ^ 32 - 1
unfolding poll
poll-stuck answer mask zero log stuck =
    rw (ne→not_== (bit_and (answer log ps2_status) mask) 0 (stuck log)) refl
poll-stuck answer mask (suc t) log stuck =
    rw (ne→not_== (bit_and (answer log ps2_status) mask) 0 (stuck log))
      (poll-stuck answer mask t (asked ps2_status ∷ log) stuck)

-- If the controller never has room for a byte, ps2_outb polls it, then writes the byte all the same and
-- reports success.
pub ps2_outb-stuck :
    (answer : Device) (port value : ℕ) (log : Log)
    → ((log : Log) → bit_and (answer log ps2_status) 0x02 ≢ 0)
    → ps2_outb answer port value log ≡ (0, wrote port value ∷ (poll answer 0x02 512 log).1)
unfolding ps2_outb
ps2_outb-stuck answer port value log stuck =
    let t = poll-stuck answer 0x02 512 log stuck in rw t refl

-- A byte other than an acknowledgement
ps2_inb-ne :
    (answer : Device) (log : Log)
    → ((log : Log) → answer log ps2_data ≢ ps2_ack)
    → (ps2_inb answer ps2_data log).0 ≢ ps2_ack
unfolding ps2_inb
ps2_inb-ne answer log never =
    let (t, log') = poll answer 0x01 512 log in
    elim (Bool-cases (t == 0)) [ inl e ↦ rw e (λ z. omega (arith, z)) | inr e ↦ rw e (never log') ]

try_cmd-ignored :
    (answer : Device) (dev cmd t : ℕ) (log : Log)
    → ((log : Log) → answer log ps2_data ≢ ps2_ack)
    → (try_cmd answer dev cmd t log).0 ≡ 1
unfolding try_cmd
try_cmd-ignored answer dev cmd zero log never =
    let sent = (ps2_outb answer ps2_data cmd (to_second answer dev log).1).1 in
    let no_ack =
      ne→not_== (ps2_inb answer ps2_data sent).0 ps2_ack (ps2_inb-ne answer sent never) in
    rw no_ack refl
try_cmd-ignored answer dev cmd (suc t) log never =
    let sent = (ps2_outb answer ps2_data cmd (to_second answer dev log).1).1 in
    let (result, log') = ps2_inb answer ps2_data sent in
    let no_ack = ne→not_== result ps2_ack (ps2_inb-ne answer sent never) in
    rw no_ack (try_cmd-ignored answer dev cmd t log' never)

-- If the device never sends an acknowledgement, ps2_dev_cmd tries 21 times and then returns 1, as it
-- does after an acknowledgement.
pub ps2_dev_cmd-ignored :
    (answer : Device) (dev cmd : ℕ) (log : Log)
    → ((log : Log) → answer log ps2_data ≢ ps2_ack)
    → (ps2_dev_cmd answer dev cmd log).0 ≡ 1
unfolding ps2_dev_cmd
ps2_dev_cmd-ignored answer dev cmd log never = try_cmd-ignored answer dev cmd 20 log never
