-- ===== src/Elf/Tests.antt =====
-- A program of two segments, the second of which covers a part of the first, and the theorem at it.
use base_kernel.Base.{
  ℕ, ◌≡◌, refl, true, false, List, [], ◌∷◌, leb, ltb, ◌==◌, ◌+◌, ◌%◌, if◌then◌else◌,
}
use base_kernel.Net.Bytes.{Buffer}
use base_kernel.Elf.{
  PageOps, Space, Segment, ok, faulted, e_phnum, all_mapped, load_pages, load_segment,
  load_segments,
}

-- Pages are handed out one after the other, and each can be mapped.
abbrev counter : PageOps ℕ
counter = record {
  alloc_page = λ m. (m + 1, m + 1);
  map_page = λ v phys flags m. (true, m);
  residue = λ m phys i. phys;
}

-- The value at a key, or 0.
at_key : ℕ → List (ℕ × ℕ) → ℕ
at_key x [] = 0
at_key x ((k, v) ∷ rest) = let other = at_key x rest in if x == k then v else other

abbrev header_bytes : List (ℕ × ℕ)
header_bytes =
    (0, 0x7F)
    ∷ (1, 69)
    ∷ (2, 76)
    ∷ (3, 70)
    ∷ (4, 2)
    ∷ (5, 1)
    ∷ (6, 1)
    ∷ (16, 2)
    ∷ (18, 62)
    ∷ (26, 64)
    ∷ (32, 64)
    ∷ (56, 2)
    ∷ []

-- 4 bytes at 0x400000, then 8 at 0x400002 of which the file has 2.
abbrev segment_bytes : List (ℕ × ℕ)
segment_bytes =
    (64, 1)
    ∷ (73, 1)
    ∷ (82, 64)
    ∷ (96, 4)
    ∷ (104, 4)
    ∷ (120, 1)
    ∷ (124, 2)
    ∷ (129, 2)
    ∷ (136, 2)
    ∷ (138, 64)
    ∷ (152, 2)
    ∷ (160, 8)
    ∷ []

abbrev program : Buffer
program x =
    if leb 256 x
    then x % 256 + 7
    else if ltb x 64
    then at_key x header_bytes
    else at_key x segment_bytes

abbrev blank : Space ℕ
blank = record { mem = λ x. 9; mapped = λ k. false; pages = 0 }

two : e_phnum program ≡ 2
unfolding at_key
two = refl

-- Both segments are placed, and the second one wins where it has bytes.
placed :
    let (status, t) = load_segments counter program 0 2 blank in
    (status ≡ ok) × (t.mem 0x400003 ≡ 8) × (t.mem 0x400005 ≡ 0)
unfolding load_segments load_segment load_pages all_mapped at_key
placed = (refl, refl, refl)

-- A segment that has more bytes in the file than pages in memory faults.
abbrev too_long : Segment
too_long = record {
  p_type = 1;
  p_flags = 0;
  p_offset = 0;
  p_vaddr = 0x400000;
  p_filesz = 5000;
  p_memsz = 100;
}

faults : (load_segment counter program too_long blank).0 ≡ faulted
unfolding load_segment load_pages all_mapped
faults = refl
