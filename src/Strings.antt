-- ===== src/Strings.antt =====
-- kernel/string.c: memory and string functions. `Memory` is the byte at each address, for ranges that
-- do not pass the end of the address space. A string is the list of its bytes before the terminator;
-- `char` is signed.
pub mod Block
pub mod Compare
mod Tests
use base_kernel.Base.{
  ℕ, zero, suc, ◌+◌, ◌-◌, ◌%◌, Bool, true, false, not, ◌&&◌, List, [], ◌∷◌, ltb, ◌==◌,
  if◌then◌else◌, length,
}
use base_kernel.Base.Int.{ℤ, pos, negsuc, ◌-ℤ◌}

abbrev pub Memory : Type 0
Memory = ℕ → ℕ

abbrev pub store : Memory → ℕ → ℕ → Memory
store mem a v p = if a == p then v else mem p

pub memset : ℕ → ℕ → ℕ → Memory → Memory
memset dest val zero mem = mem
memset dest val (suc n) mem = memset (dest + 1) val n (store mem dest (val % 256))

pub memcpy : ℕ → ℕ → ℕ → Memory → Memory
memcpy dest src zero mem = mem
memcpy dest src (suc n) mem = memcpy (dest + 1) (src + 1) n (store mem dest (mem src))

pub memcmp : ℕ → ℕ → ℕ → Memory → ℤ
memcmp a b zero mem = pos 0
memcmp a b (suc n) mem =
    let rest = memcmp (a + 1) (b + 1) n mem in
    if mem a == mem b then rest else if ltb (mem a) (mem b) then negsuc 0 else pos 1

pub strlen : List ℕ → ℕ
strlen str = length str

-- The value of a `char` with this byte.
abbrev pub char_value : ℕ → ℤ
char_value c = if ltb c 128 then pos c else negsuc (255 - c)

-- `*s`
abbrev pub first : List ℕ → ℕ
first [] = 0
first (c ∷ cs) = c

abbrev pub difference : List ℕ → List ℕ → ℤ
difference a b = char_value (first a) -ℤ char_value (first b)

unfoldable pub strcmp : List ℕ → List ℕ → ℤ
strcmp [] b = difference [] b
strcmp (c ∷ cs) [] = difference (c ∷ cs) []
strcmp (c ∷ cs) (d ∷ ds) =
    let rest = strcmp cs ds in if c == d then rest else difference (c ∷ cs) (d ∷ ds)

-- The loop of `strncmp`, with `n` rounds left, and the comparison behind it.
pub strncmp_loop : ℕ → List ℕ → List ℕ → ℤ
strncmp_loop zero a b = difference a b
strncmp_loop (suc n) [] b = difference [] b
strncmp_loop (suc n) (c ∷ cs) [] = difference (c ∷ cs) []
strncmp_loop (suc n) (c ∷ cs) (d ∷ ds) =
    let rest = strncmp_loop n cs ds in if c == d then rest else difference (c ∷ cs) (d ∷ ds)

pub strncmp : List ℕ → List ℕ → ℕ → ℤ
strncmp a b n = if n == 0 then pos 0 else strncmp_loop n a b

-- The `n` bytes that `strncpy` writes.
pub strncpy : List ℕ → ℕ → List ℕ
strncpy src zero = []
strncpy [] (suc n) = 0 ∷ strncpy [] n
strncpy (c ∷ cs) (suc n) = c ∷ strncpy cs n
