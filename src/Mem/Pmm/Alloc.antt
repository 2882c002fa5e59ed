-- ===== src/Mem/Pmm/Alloc.antt =====
-- `frame_alloc` and `frame_free` of pmm.c over the set of taken frames.
use mathlib.Core.Path.{subst}
use mathlib.Core.Option.{some-injective}
use hydrangea.Prelude.{
  ℕ, ◌*◌, ◌/◌, ◌%◌, ◌^◌, ◌≤◌, ◌<◌, ◌≡◌, ◌≢◌, ◌↔◌, ◌⊎◌, inl, inr, refl, ap, sym, ◌∙◌, arith, ◌==◌,
  if◌then◌else◌, Option, none, some, Option-cases,
}
use hydrangea.Mem.Pmm.{
  Pmm, frame_of, frame_bmp_set, frame_bmp_reset, frame_bmp_get_first, frame_alloc, frame_free,
}
use hydrangea.Mem.Pmm.Frames.{taken, taken-frame_bmp_set, taken-frame_bmp_reset}
use hydrangea.Mem.Pmm.First.{First, frame_bmp_get_first-First}

-- What a successful allocation gives: the address of the lowest frame that was not taken, which is
-- taken now; no other frame changes.
pub record Allocated (p : Pmm) (addr : ℕ) (p' : Pmm) : Type 0 where
  pub aligned : addr % 4096 ≡ 0
  pub in_memory : addr < p.memory_size
  pub was_free : taken p (frame_of addr) ≡ 0
  pub lowest : (f : ℕ) → f < frame_of addr → taken p f ≡ 1
  pub takes : (f : ℕ) → taken p' f ≡ (if f == frame_of addr then 1 else taken p f)
  pub memory : p'.memory_size ≡ p.memory_size

pub alloc_some :
    (p : Pmm) (ff : ℕ)
    → frame_bmp_get_first p ≡ some ff
    → frame_alloc p ≡ some (ff * 0x1000 % 2 ^ 32, frame_bmp_set p (ff * 0x1000 % 2 ^ 32))
unfolding frame_alloc
alloc_some p ff e = rw (e, frame_alloc)

pub alloc_none : (p : Pmm) → frame_bmp_get_first p ≡ none → frame_alloc p ≡ none
unfolding frame_alloc
alloc_none p e = rw (e, frame_alloc)

frame_bmp_set-memory : (p : Pmm) (addr : ℕ) → (frame_bmp_set p addr).memory_size ≡ p.memory_size
unfolding frame_bmp_set
frame_bmp_set-memory p addr = refl

Allocated-frame :
    (p : Pmm) (ff : ℕ)
    → p.memory_size ≤ 2 ^ 32
    → First (taken p) 0 (32 * (p.memory_size / 4096 / 32)) (some ff)
    → Allocated p (ff * 0x1000 % 2 ^ 32) (frame_bmp_set p (ff * 0x1000 % 2 ^ 32))
Allocated-frame p ff small (a, b, c, d) =
    let addr : ff * 0x1000 % 2 ^ 32 ≡ ff * 0x1000 = omega arith in
    let frame : ff * 0x1000 / 4096 ≡ ff = omega arith in
    rw addr (record {
      aligned = omega arith;
      in_memory = omega arith;
      was_free = rw frame c;
      lowest = λ f h. d f (omega arith) (omega (arith, frame));
      takes = taken-frame_bmp_set p (ff * 0x1000);
      memory = frame_bmp_set-memory p (ff * 0x1000);
    })

allocated :
    (p p' : Pmm) (addr : ℕ)
    → p.memory_size ≤ 2 ^ 32
    → frame_alloc p ≡ some (addr, p')
    → (frame_bmp_get_first p ≡ none) ⊎ ((ff : ℕ) × (frame_bmp_get_first p ≡ some ff))
    → Allocated p addr p'
allocated p p' addr small got (inl e) = absurd (not_none (sym (alloc_none p e) ∙ got))
  where
    not_none : ◌≡◌ {A = Option (ℕ × Pmm)} none (some (addr, p')) → ⊥
    not_none h = cc
allocated p p' addr small got (inr (ff, e)) =
    subst (λ r. Allocated p r.0 r.1) (some-injective _ _ (sym (alloc_some p ff e) ∙ got))
      (Allocated-frame p ff small (
        subst (First (taken p) 0 (32 * (p.memory_size / 4096 / 32))) e
          (frame_bmp_get_first-First p)))

-- While at most 4 GiB are managed, a successful `frame_alloc` returns the address of the lowest free
-- frame below the managed size, marks that frame as taken and no other, and leaves the managed size.
pub frame_alloc-Allocated :
    (p p' : Pmm) (addr : ℕ)
    → p.memory_size ≤ 2 ^ 32
    → frame_alloc p ≡ some (addr, p')
    → Allocated p addr p'
frame_alloc-Allocated p p' addr small got =
    allocated p p' addr small got (Option-cases (frame_bmp_get_first p))

all_taken :
    (p : Pmm)
    → frame_alloc p ≡ none
    → (frame_bmp_get_first p ≡ none) ⊎ ((ff : ℕ) × (frame_bmp_get_first p ≡ some ff))
    → (f : ℕ) → f < 32 * (p.memory_size / 4096 / 32)
    → taken p f ≡ 1
all_taken p got (inl e) f h =
    subst (First (taken p) 0 (32 * (p.memory_size / 4096 / 32))) e (frame_bmp_get_first-First p) f
      (omega arith) h
all_taken p got (inr (ff, e)) f h = cc (alloc_some p ff e)

no_frame :
    (p : Pmm)
    → ((f : ℕ) → f < 32 * (p.memory_size / 4096 / 32) → taken p f ≡ 1)
    → (frame_bmp_get_first p ≡ none) ⊎ ((ff : ℕ) × (frame_bmp_get_first p ≡ some ff))
    → frame_alloc p ≡ none
no_frame p all (inl e) = alloc_none p e
no_frame p all (inr (ff, e)) =
    let (a, b, c, d) =
      subst (First (taken p) 0 (32 * (p.memory_size / 4096 / 32))) e
        (frame_bmp_get_first-First p) in
    absurd (omega (arith, all ff b))

-- `frame_alloc` panics exactly when every frame that it may give out is taken.
pub frame_alloc-none :
    (p : Pmm)
    → (frame_alloc p ≡ none) ↔ ((f : ℕ) → f < 32 * (p.memory_size / 4096 / 32) → taken p f ≡ 1)
frame_alloc-none p = (
  λ e. all_taken p e (Option-cases (frame_bmp_get_first p)),
  λ all. no_frame p all (Option-cases (frame_bmp_get_first p)),
)

freed_memory : (p : Pmm) (c : ℕ) → p.memory_size ≤ 2 ^ 32 → (frame_free p c).memory_size ≤ 2 ^ 32
unfolding frame_free frame_bmp_reset
freed_memory p c h = h

-- While at most 4 GiB are managed, two allocations in a row give different addresses, also with
-- another frame freed in between.
pub frame_alloc_ne :
    (p p' p'' : Pmm) (a b c : ℕ)
    → p.memory_size ≤ 2 ^ 32
    → frame_alloc p ≡ some (a, p')
    → frame_of c ≢ frame_of a
    → frame_alloc (frame_free p' c) ≡ some (b, p'')
    → b ≢ a
unfolding frame_free
frame_alloc_ne p p' p'' a b c small first other second same =
    let got = frame_alloc-Allocated p p' a small first in
    let again =
      frame_alloc-Allocated (frame_free p' c) p'' b (freed_memory p' c (omega (arith, got.memory)))
        second in
    let still : taken (frame_free p' c) (frame_of a) ≡ 1 =
      ground (arith, taken-frame_bmp_reset p' c (frame_of a), got.takes (frame_of a)) in
    let free : taken (frame_free p' c) (frame_of a) ≡ 0 =
      ap (λ x. taken (frame_free p' c) (frame_of x)) (sym same) ∙ again.was_free in
    omega (arith, still, free)

-- While at most 4 GiB are managed, freeing the frame that `frame_alloc` gave restores the set of
-- taken frames.
pub frame_free-frame_alloc :
    (p p' : Pmm) (addr : ℕ)
    → p.memory_size ≤ 2 ^ 32
    → frame_alloc p ≡ some (addr, p')
    → (f : ℕ) → taken (frame_free p' addr) f ≡ taken p f
unfolding frame_free
frame_free-frame_alloc p p' addr small got f =
    let a = frame_alloc-Allocated p p' addr small got in
    ground (arith, taken-frame_bmp_reset p' addr f, a.takes f, a.was_free)
