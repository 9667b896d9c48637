-- ===== src/Worker/Buffers.antt =====
-- The I/O buffers of ublk/worker.go: `alignedAlloc` and `allocBuffers`.
use native.Mathlib.Nat.{mod-lt, add-mod-mod, div-add-mod, mul-mod_right, mul-le-mul_right}
use ublk_go.Prelude.{
  ℕ, zero, suc, ◌+◌, ◌-◌, ◌*◌, ◌/◌, ◌%◌, ◌≤◌, ◌<◌, ◌≡◌, refl, ap, ◌∙◌, List, [], ◌∷◌, Option, none,
  some, arith, leb, if◌then◌else◌, replicate, length, get_elem?, length-replicate,
}

-- A Go slice of the pool: where it starts, how long it is and how far it may be extended.
pub record Slice : Type 0 where
  pub start : ℕ
  pub len : ℕ
  pub cap : ℕ

-- `s[:n]`, which panics past the capacity.
unfoldable pub reslice : Slice → ℕ → Option Slice
reslice s n = if leb n s.cap then some (record s { len = n }) else none

-- `alignedAlloc` over an allocation of `size + align` bytes at the address `addr`: the address, the
-- bytes and the capacity of the slice that it returns.
pub record Block : Type 0 where
  pub addr : ℕ
  pub bytes : List ℕ
  pub cap : ℕ

-- `(uintptr(align) - addr%uintptr(align)) % uintptr(align)`, which does not wrap for `0 < align`.
abbrev pub align_offset : ℕ → ℕ → ℕ
align_offset addr align = (align - addr % align) % align

unfoldable pub aligned_alloc : ℕ → ℕ → ℕ → Block
aligned_alloc addr size align = record {
  addr = addr + align_offset addr align;
  bytes = replicate size 0;
  cap = size + align - align_offset addr align;
}

-- `bufPool` and `bufs`.
pub record Buffers : Type 0 where
  pub pool : Block
  pub bufs : List Slice

-- The loop of `allocBuffers`, from buffer `i` on with `n` left: `w.bufPool[off : off+w.bufSize]`.
unfoldable pub slice_loop : ℕ → ℕ → ℕ → ℕ → List Slice
slice_loop cap buf_size i zero = []
slice_loop cap buf_size i (suc n) =
    record { start = i * buf_size; len = buf_size; cap = cap - i * buf_size }
    ∷ slice_loop cap buf_size (i + 1) n

unfoldable pub alloc_buffers : ℕ → ℕ → ℕ → Buffers
unfolding slice_loop aligned_alloc
alloc_buffers addr depth buf_size =
    let pool = aligned_alloc addr (depth * buf_size) 4096 in
    record { pool = pool; bufs = slice_loop pool.cap buf_size 0 depth }

align_offset_aligns : (addr align : ℕ) → 0 < align → (addr + align_offset addr align) % align ≡ 0
align_offset_aligns addr align h =
    add-mod-mod addr (align - addr % align) align
    ∙ ap (λ (a : ℕ). a % align) whole
    ∙ mul-mod_right align (addr / align + 1)
  where
    whole : addr + (align - addr % align) ≡ align * (addr / align + 1)
    whole = omega (arith, div-add-mod addr align, mod-lt addr h)

-- The buffer starts at a multiple of the alignment, inside the allocation, with `size` zero bytes
-- and room for them up to its end.
pub aligned_alloc_lem :
    (addr size align : ℕ)
    → 0 < align
    → let b = aligned_alloc addr size align in
      (b.addr % align ≡ 0)
      × (addr ≤ b.addr)
      × (b.addr + size ≤ addr + (size + align))
      × (length b.bytes ≡ size)
      × (size ≤ b.cap)
      × (b.addr + b.cap ≡ addr + (size + align))
unfolding aligned_alloc
aligned_alloc_lem addr size align h =
    let small : align_offset addr align < align = mod-lt (align - addr % align) h in
    (
      align_offset_aligns addr align h,
      omega arith,
      omega arith,
      length-replicate size 0,
      omega arith,
      omega arith,
    )

get_elem?-slice_loop :
    (cap b i n j : ℕ)
    → j < n
    → get_elem? (slice_loop cap b i n) j
      ≡ some (record { start = (i + j) * b; len = b; cap = cap - (i + j) * b })
unfolding slice_loop
get_elem?-slice_loop cap b i zero j lt = absurd (omega arith)
get_elem?-slice_loop cap b i (suc n) zero lt =
    ap (λ (o : ℕ). some (record { start = o * b; len = b; cap = cap - o * b })) (omega arith)
get_elem?-slice_loop cap b i (suc n) (suc j) lt =
    get_elem?-slice_loop cap b (i + 1) n j (omega arith)
    ∙ ap (λ (o : ℕ). some (record { start = o * b; len = b; cap = cap - o * b })) (omega arith)

pub slot_fits : (tag depth b : ℕ) → tag < depth → tag * b + b ≤ depth * b
slot_fits tag depth b lt = omega (arith, mul-le-mul_right {m = tag + 1} {n = depth} b (omega arith))

-- Buffer `tag` of `depth` starts after those before it, has the buffer size and ends in the pool.
pub alloc_buffers-slice :
    (addr depth buf_size tag : ℕ)
    → tag < depth
    → (s : Slice) × (get_elem? (alloc_buffers addr depth buf_size).bufs tag ≡ some s)
      × (s.start ≡ tag * buf_size)
      × (s.len ≡ buf_size)
      × (buf_size ≤ s.cap)
      × (s.start + s.len ≤ length (alloc_buffers addr depth buf_size).pool.bytes)
unfolding alloc_buffers
alloc_buffers-slice addr depth b tag lt = (
  _,
  get_elem?-slice_loop (aligned_alloc addr (depth * b) 4096).cap b 0 depth tag lt,
  omega arith,
  refl,
  omega (arith, slot_fits tag depth b lt),
  omega (arith, slot_fits tag depth b lt, length-replicate {A = ℕ} (depth * b) 0),
)
