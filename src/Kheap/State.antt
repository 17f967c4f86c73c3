-- ===== src/Kheap/State.antt =====
-- The data of kernel/memory/kheap.c.
use base_kernel.Base.{
  ℕ, ◌+◌, ◌*◌, ◌/◌, Bool, List, [], ◌∷◌, ltb, leb, if◌then◌else◌, ◌&&◌, add64, get_or,
}
use base_kernel.Pmm.{Pmm}

abbrev pub heap_start : ℕ
heap_start = 0x300000

abbrev pub heap_end : ℕ
heap_end = 0x700000

abbrev pub num_size_classes : ℕ
num_size_classes = 9

abbrev pub size_classes : List ℕ
size_classes = 16 ∷ 32 ∷ 64 ∷ 128 ∷ 256 ∷ 512 ∷ 1024 ∷ 2048 ∷ 4096 ∷ []

abbrev pub large_alloc_threshold : ℕ
large_alloc_threshold = 4096

pub record SizeClass : Type 0 where
  pub free_list : ℕ
  pub total_objects : ℕ
  pub free_objects : ℕ
  pub alloc_count : ℕ
  pub free_count : ℕ

abbrev pub no_objects : SizeClass
no_objects = record {
  free_list = 0;
  total_objects = 0;
  free_objects = 0;
  alloc_count = 0;
  free_count = 0;
}

pub record AllocRecord : Type 0 where
  pub ptr : ℕ
  pub size : ℕ
  pub tag : ℕ

pub record Heap : Type 0 where
  pub next : ℕ → ℕ
  pub classes : List SizeClass
  pub heap_next_free : ℕ
  pub heap_initialized : Bool
  pub alloc_records : List AllocRecord
  pub total_allocated : ℕ
  pub peak_usage : ℕ
  pub allocation_count : ℕ
  pub frees : ℕ
  pub pmm : Pmm

-- `memset(block, 0, size)`, as far as nodes lie in the block.
abbrev pub clear_block : ℕ → ℕ → (ℕ → ℕ) → ℕ → ℕ
clear_block block size next p = if leb block p && ltb p (block + size) then 0 else next p

abbrev pub class_at : List SizeClass → ℕ → SizeClass
class_at cs i = get_or cs i no_objects

-- `ALIGN_UP(x, 16)` on 64 bits.
abbrev pub align_16 : ℕ → ℕ
align_16 x = add64 x 15 / 16 * 16
