-- ===== src/Kheap/Classes.antt =====
-- The size class that `kmalloc` picks.
use base_kernel.Base.{ℕ, ◌≤◌, ◌<◌, Option, none, some, arith}
use base_kernel.Kheap.{index_from, get_size_class_index, class_size}

-- The smallest class that holds `size` bytes, or none if the largest does not.
abbrev pub IsClassOf : ℕ → Option ℕ → Type 0
IsClassOf size none = 4096 < size
IsClassOf size (some i) = (i < 9) × (size ≤ class_size i) × ((j : ℕ) → j < i → class_size j < size)

-- The index names the smallest class that holds the size, and there is none exactly for sizes above
-- 4096.
pub get_size_class_index_lem : (size : ℕ) → IsClassOf size (get_size_class_index size)
unfolding get_size_class_index index_from
get_size_class_index_lem size = ground arith
