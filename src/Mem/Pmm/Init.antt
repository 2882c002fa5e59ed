-- ===== src/Mem/Pmm/Init.antt =====
-- `pmm_init` of pmm.c: the regions of the memory map that are not available end up taken.
use mathlib.Core.Path.{subst}
use mathlib.Core.Option.{some-injective}
use hydrangea.Prelude.{
  ℕ, zero, suc, ◌+◌, ◌-◌, ◌≤◌, ◌*◌, ◌/◌, ◌%◌, ◌^◌, ◌<◌, ◌≡◌, ◌≢◌, ◌⊎◌, inl, inr, sym, ◌∙◌, arith,
  ◌==◌, if◌then◌else◌, none, some, List, [], ◌∷◌, eq→==, ne→not_==, Option-cases, get_elem?,
  Bool-cases,
}
use Prim.Native.Nat.{bit_and}
use hydrangea.Mem.Pmm.{
  Pmm, MapEntry, frame_of, frame_bmp_set, frame_bmp_get_first, frame_alloc, mark_frames, add_region,
  add_regions, mark_unavailable, last_entry, cleared_bitmap, kernel_frames, pmm_init,
}
use hydrangea.Mem.Pmm.Frames.{taken, taken-frame_bmp_set}
use hydrangea.Mem.Pmm.Alloc.{alloc_some, alloc_none}

-- `q` has every frame taken that `p` has.
abbrev pub Keeps : Pmm → Pmm → Type 0
Keeps p q = (f : ℕ) → taken p f ≡ 1 → taken q f ≡ 1

Keeps-set : (p : Pmm) (addr : ℕ) → Keeps p (frame_bmp_set p addr)
Keeps-set p addr f t = ground (arith, taken-frame_bmp_set p addr f)

Keeps-mark_frames : (p : Pmm) (addr k n : ℕ) → Keeps p (mark_frames p addr k n)
unfolding mark_frames
Keeps-mark_frames p addr k zero f t = t
Keeps-mark_frames p addr k (suc n) f t =
    let a = (addr + k * 4096) % 2 ^ 32 in
    Keeps-mark_frames (frame_bmp_set p a) addr (suc k) n f (Keeps-set p a f t)

Keeps-add_region : (p : Pmm) (e : MapEntry) → Keeps p (add_region p e)
unfolding add_region
Keeps-add_region p e f t = elim (Bool-cases (e.addr_hi == 0)) [
  | inr high ↦ rw high t
  | inl low ↦ elim (Bool-cases (e.type == 1)) [
    | inl available ↦ rw (low, available) t
    | inr other ↦ rw (low, other) (Keeps-mark_frames p e.addr_lo 0 (e.len_lo / 4096) f t)
  ]
]

Keeps-add_regions : (p : Pmm) (es : List MapEntry) → Keeps p (add_regions p es)
unfolding add_regions
Keeps-add_regions p [] f t = t
Keeps-add_regions p (e ∷ es) f t =
    Keeps-add_regions (add_region p e) es f (Keeps-add_region p e f t)

Keeps-mark_unavailable : (p : Pmm) (es : List MapEntry) → Keeps p (mark_unavailable p es)
unfolding mark_unavailable
Keeps-mark_unavailable p [] f t = t
Keeps-mark_unavailable p (e ∷ es) f t =
    let p' = if bit_and e.type 1 == 0 then frame_bmp_set p e.addr_lo else p in
    let kept : taken p' f ≡ 1 = ground (arith, Keeps-set p e.addr_lo f) in
    Keeps-mark_unavailable p' es f kept

taken-mark_frames :
    (p : Pmm) (addr k n j : ℕ)
    → j < n
    → taken (mark_frames p addr k n) (frame_of ((addr + (k + j) * 4096) % 2 ^ 32)) ≡ 1
unfolding mark_frames
taken-mark_frames p addr k zero j h = absurd (omega arith)
taken-mark_frames p addr k (suc n) zero h =
    let a = (addr + k * 4096) % 2 ^ 32 in
    let at : k + zero ≡ k = omega arith in
    rw at (
      Keeps-mark_frames (frame_bmp_set p a) addr (suc k) n (frame_of a)
        (ground (arith, taken-frame_bmp_set p a (frame_of a))))
taken-mark_frames p addr k (suc n) (suc j) h =
    let a = (addr + k * 4096) % 2 ^ 32 in
    let at : k + suc j ≡ suc k + j = omega arith in
    rw at (taken-mark_frames (frame_bmp_set p a) addr (suc k) n j (omega arith))

-- The frame `j` of a region.
abbrev pub region_frame : MapEntry → ℕ → ℕ
region_frame e j = frame_of ((e.addr_lo + (0 + j) * 4096) % 2 ^ 32)

taken-add_region :
    (p : Pmm) (e : MapEntry) (j : ℕ)
    → e.addr_hi ≡ 0
    → e.type ≢ 1
    → j < e.len_lo / 4096
    → taken (add_region p e) (region_frame e j) ≡ 1
unfolding add_region
taken-add_region p e j low other h =
    rw (eq→== _ _ low, ne→not_== _ _ other) (taken-mark_frames p e.addr_lo 0 (e.len_lo / 4096) j h)

taken-add_regions :
    (p : Pmm) (es : List MapEntry) (i : ℕ) (e : MapEntry) (j : ℕ)
    → get_elem? es i ≡ some e
    → e.addr_hi ≡ 0
    → e.type ≢ 1
    → j < e.len_lo / 4096
    → taken (add_regions p es) (region_frame e j) ≡ 1
unfolding add_regions
taken-add_regions p [] i e j at low other h = cc
taken-add_regions p (e' ∷ es) zero e j at low other h =
    subst (λ r. taken (add_regions (add_region p r) es) (region_frame e j) ≡ 1)
      (sym (some-injective _ _ at))
      (Keeps-add_regions (add_region p e) es (region_frame e j)
        (taken-add_region p e j low other h))
taken-add_regions p (e' ∷ es) (suc i) e j at low other h =
    taken-add_regions (add_region p e') es i e j at low other h

Keeps-frame_alloc :
    (p p' : Pmm) (addr : ℕ)
    → frame_alloc p ≡ some (addr, p')
    → (frame_bmp_get_first p ≡ none) ⊎ ((ff : ℕ) × (frame_bmp_get_first p ≡ some ff))
    → Keeps p p'
Keeps-frame_alloc p p' addr got (inl e) f t = cc (alloc_none p e)
Keeps-frame_alloc p p' addr got (inr (ff, e)) f t =
    subst (λ r. taken r.1 f ≡ 1) (some-injective _ _ (sym (alloc_some p ff e) ∙ got))
      (Keeps-set p (ff * 0x1000 % 2 ^ 32) f t)

-- the state in which `pmm_init` makes its one allocation
abbrev mapped : Pmm → MapEntry → List MapEntry → ℕ → Pmm
mapped p first es end_of_kernel =
    mark_frames (add_regions (cleared_bitmap p) es) (last_entry first es).addr_lo 0
      (kernel_frames end_of_kernel)

init_some :
    (p : Pmm) (first : MapEntry) (es : List MapEntry) (end_of_kernel addr : ℕ) (q : Pmm)
    → frame_alloc (mapped p first es end_of_kernel) ≡ some (addr, q)
    → pmm_init p first es end_of_kernel ≡ some (mark_unavailable q es)
unfolding pmm_init
init_some p first es end_of_kernel addr q e = rw (e, pmm_init)

init_none :
    (p : Pmm) (first : MapEntry) (es : List MapEntry) (end_of_kernel : ℕ)
    → frame_alloc (mapped p first es end_of_kernel) ≡ none
    → pmm_init p first es end_of_kernel ≡ none
unfolding pmm_init
init_none p first es end_of_kernel e = rw (e, pmm_init)

reserved :
    (p q : Pmm) (first : MapEntry) (es : List MapEntry) (end_of_kernel f : ℕ)
    → pmm_init p first es end_of_kernel ≡ some q
    → taken (mapped p first es end_of_kernel) f ≡ 1
    → let r = frame_alloc (mapped p first es end_of_kernel) in
      (r ≡ none) ⊎ ((a : ℕ × Pmm) × (r ≡ some a)) → taken q f ≡ 1
reserved p q first es end_of_kernel f done t (inl e) = cc (init_none p first es end_of_kernel e)
reserved p q first es end_of_kernel f done t (inr ((addr, m), e)) =
    let before = mapped p first es end_of_kernel in
    subst (λ r. taken r f ≡ 1)
      (some-injective _ _ (sym (init_some p first es end_of_kernel addr m e) ∙ done))
      (Keeps-mark_unavailable m es f
        (Keeps-frame_alloc before m addr e (Option-cases (frame_bmp_get_first before)) f t))

pmm_init-region_frame :
    (p q : Pmm) (first : MapEntry) (es : List MapEntry) (end_of_kernel i : ℕ) (e : MapEntry) (j : ℕ)
    → pmm_init p first es end_of_kernel ≡ some q
    → get_elem? es i ≡ some e
    → e.addr_hi ≡ 0
    → e.type ≢ 1
    → j < e.len_lo / 4096
    → taken q (region_frame e j) ≡ 1
pmm_init-region_frame p q first es end_of_kernel i e j done at low other h =
    reserved p q first es end_of_kernel (region_frame e j) done
      (Keeps-mark_frames (add_regions (cleared_bitmap p) es) (last_entry first es).addr_lo 0
        (kernel_frames end_of_kernel) (region_frame e j)
        (taken-add_regions (cleared_bitmap p) es i e j at low other h))
      (Option-cases (frame_alloc (mapped p first es end_of_kernel)))

-- After `pmm_init`, of every region within 4 GiB that the memory map does not call available as many frames are
-- taken as its length has whole ones, from the frame on in which the region starts. These are all its whole
-- frames, if it starts at one.
pub pmm_init-reserved :
    (p q : Pmm) (first : MapEntry) (es : List MapEntry) (end_of_kernel i : ℕ) (e : MapEntry) (f : ℕ)
    → pmm_init p first es end_of_kernel ≡ some q
    → get_elem? es i ≡ some e
    → e.addr_hi ≡ 0
    → e.type ≢ 1
    → e.addr_lo + e.len_lo ≤ 2 ^ 32
    → (e.addr_lo / 4096 ≤ f → f < e.addr_lo / 4096 + e.len_lo / 4096 → taken q f ≡ 1)
      × (e.addr_lo % 4096 ≡ 0
          → e.addr_lo ≤ f * 4096
          → f * 4096 + 4096 ≤ e.addr_lo + e.len_lo
          → taken q f ≡ 1)
pmm_init-reserved p q first es end_of_kernel i e f done at low other inside =
    let marked = λ (a : e.addr_lo / 4096 ≤ f) (b : f < e.addr_lo / 4096 + e.len_lo / 4096).
      let j = f - e.addr_lo / 4096 in
      let here : region_frame e j ≡ f = omega (arith, a, b, inside) in
      subst (λ g. taken q g ≡ 1) here
        (pmm_init-region_frame p q first es end_of_kernel i e j done at low other
          (omega (arith, a, b))) in
    (marked, λ start a b. marked (omega (arith, start, a)) (omega (arith, start, a, b)))
