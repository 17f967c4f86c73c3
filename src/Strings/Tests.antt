-- ===== src/Strings/Tests.antt =====
-- Tests of kernel/string.c, and its theorems at concrete strings and blocks.
use base_kernel.Base.{
  ℕ, ◌+◌, ◌-◌, ◌%◌, ◌≡◌, ◌↔◌, refl, inl, ◌&&◌, List, [], ◌∷◌, ltb, leb, if◌then◌else◌, arith,
}
use base_kernel.Base.Int.{pos, negsuc, ◌-ℤ◌}
use base_kernel.Strings.{Memory, memcpy, memcmp, strcmp, strncmp, strncmp_loop}
use base_kernel.Strings.Block.{memcpy_lem}
use base_kernel.Strings.Compare.{strcmp_iff}

-- "abc" and "abd" differ, even up to two bytes.
strncmp_two : strncmp (97 ∷ 98 ∷ 99 ∷ []) (97 ∷ 98 ∷ 100 ∷ []) 2 ≡ negsuc 0
unfolding strncmp strncmp_loop ◌-ℤ◌
strncmp_two = refl

-- The bytes are the low bytes of their addresses.
abbrev counting : Memory
counting p = p % 256

memcmp-counting : memcmp 10 11 4 counting ≡ negsuc 0
unfolding memcmp
memcmp-counting = refl

memcpy_lem_example :
    memcpy 100 104 8 counting 103
    ≡ (if leb 100 103 && ltb 103 (100 + 8) then counting (104 + (103 - 100)) else counting 103)
memcpy_lem_example = memcpy_lem 100 104 8 counting 103 (inl (omega arith))

strcmp_iff_example :
    (strcmp (97 ∷ 98 ∷ []) (97 ∷ 200 ∷ []) ≡ pos 0)
    ↔ (◌≡◌ {A = List ℕ} (97 ∷ 98 ∷ []) (97 ∷ 200 ∷ []))
strcmp_iff_example =
    strcmp_iff (97 ∷ 98 ∷ []) (97 ∷ 200 ∷ [])
      ((omega arith, omega arith), ((omega arith, omega arith), tt))
      ((omega arith, omega arith), ((omega arith, omega arith), tt))
