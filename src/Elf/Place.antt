-- ===== src/Elf/Place.antt =====
-- What the segments of a program leave in memory.
use base_kernel.Base.{
  ◌≤◌, ◌<◌, ◌%◌, ◌^◌, ℕ, zero, suc, ◌+◌, ◌-◌, ◌*◌, ◌≡◌, refl, sym, subst, ap, ◌∙◌, inl, inr, Bool,
  true, false, ◌&&◌, ◌||◌, Option, none, some, ltb, leb, ◌==◌, if◌then◌else◌, Bool-cases,
  some_value, arith,
}
use base_kernel.Net.Bytes.{Buffer}
use base_kernel.Elf.{Segment, phdr, place, start_page, num_pages}

-- The address lies in the part of memory that a segment fills.
abbrev pub fills : Segment → ℕ → Bool
fills p x =
    p.p_type == 1
    && (leb p.p_vaddr x && (ltb x (p.p_vaddr + p.p_filesz) || ltb x (p.p_vaddr + p.p_memsz)))

-- What a segment wants there: 0 behind the bytes of the file.
abbrev pub content : Buffer → Segment → ℕ → ℕ
content file p x = if ltb x (p.p_vaddr + p.p_filesz) then file (p.p_offset + (x - p.p_vaddr)) else 0

-- A segment within the address space whose bytes in the file fit into its pages.
abbrev pub IsFitting : Segment → Type 0
IsFitting p = (p.p_filesz ≤ p.p_memsz) × (p.p_vaddr + p.p_memsz + 4095 < 2 ^ 64)

place_inside :
    (file : Buffer) (p : Segment) (mem : ℕ → ℕ) (x : ℕ)
    → IsFitting p
    → x < 2 ^ 64
    → fills p x ≡ true
    → place file p mem x ≡ content file p x
place_inside file p mem x fit small h =
    let f0 = fit.0 in
    let f1 = fit.1 in
    let low : p.p_vaddr ≤ x = ground arith in
    let high : x < p.p_vaddr + p.p_memsz = ground arith in
    let one : (x + 2 ^ 64 - p.p_vaddr) % 2 ^ 64 ≡ x - p.p_vaddr = omega arith in
    let two : (x + 2 ^ 64 - (p.p_vaddr + p.p_filesz) % 2 ^ 64) % 2 ^ 64 ≡ (
        if ltb x (p.p_vaddr + p.p_filesz)
        then x + 2 ^ 64 - (p.p_vaddr + p.p_filesz)
        else x - (p.p_vaddr + p.p_filesz)) =
      ground arith in
    rw (one, two) (ground arith)

place_outside :
    (file : Buffer) (p : Segment) (mem : ℕ → ℕ) (x : ℕ)
    → IsFitting p
    → x < 2 ^ 64
    → p.p_type ≡ 1
    → fills p x ≡ false
    → place file p mem x ≡ mem x
place_outside file p mem x fit small t h = let f0 = fit.0 in let f1 = fit.1 in ground arith

-- The address lies on a page that a segment takes.
abbrev pub on_page : Segment → ℕ → Bool
on_page p x = p.p_type == 1 && (leb (start_page p) x && ltb x (start_page p + num_pages p * 4096))

-- What is at `x` behind a segment, if that is known: not on its pages outside what it fills.
abbrev pub wanted : Buffer → ℕ → Segment → Option ℕ → Option ℕ
wanted file x p old =
    if fills p x then some (content file p x) else if on_page p x then none else old

-- The same behind the `n` segments from number `i` on, where `old` is known of `x` in front of them:
-- the last of them that fills `x` or has a page there decides.
unfoldable pub image : Buffer → ℕ → ℕ → ℕ → Option ℕ → Option ℕ
image file x i zero old = old
image file x i (suc n) old = wanted file x (phdr file (i + n)) (image file x i n old)

pub image_first :
    (file : Buffer) (x i n : ℕ) (old : Option ℕ)
    → image file x (i + 1) n (wanted file x (phdr file i) old) ≡ image file x i (suc n) old
unfolding image
image_first file x i zero old =
    let e : i ≡ i + 0 = omega arith in
    subst (λ k. wanted file x (phdr file i) old ≡ wanted file x (phdr file k) old) e refl
image_first file x i (suc n) old =
    let e : i + suc n ≡ i + 1 + n = omega arith in
    subst
      (λ k.
        wanted file x (phdr file k) (image file x (i + 1) n (wanted file x (phdr file i) old))
        ≡ image file x i (suc (suc n)) old)
      e (ap (wanted file x (phdr file (i + suc n))) (image_first file x i n old))

-- The byte is what is known of it.
abbrev pub Agrees : Option ℕ → ℕ → Type 0
Agrees o m = (c : ℕ) → o ≡ some c → m ≡ c

wanted-fills :
    (file : Buffer) (x : ℕ) (p : Segment) (o : Option ℕ)
    → fills p x ≡ true
    → wanted file x p o ≡ some (content file p x)
wanted-fills file x p o f =
    ap (λ b. if b then some (content file p x) else if on_page p x then none else o) f

wanted_else :
    (file : Buffer) (x : ℕ) (p : Segment) (o : Option ℕ)
    → fills p x ≡ false
    → wanted file x p o ≡ (if on_page p x then none else o)
wanted_else file x p o f =
    ap (λ b. if b then some (content file p x) else if on_page p x then none else o) f

pub place-wanted :
    (file : Buffer) (x : ℕ) (p : Segment) (before after : ℕ → ℕ) (o : Option ℕ) (c : ℕ)
    → IsFitting p
    → x < 2 ^ 64
    → (p.p_type == 1) ≡ true
    → Agrees o (before x)
    → (on_page p x ≡ false → after x ≡ before x)
    → wanted file x p o ≡ some c
    → place file p after x ≡ c
place-wanted file x p before after o c fit small t a same e = elim (Bool-cases (fills p x)) [
  | inl f ↦
      place_inside file p after x fit small f ∙ some_value (sym (wanted-fills file x p o f) ∙ e)
  | inr f ↦
      let one : p.p_type ≡ 1 = ground arith in
      let e' = sym (wanted_else file x p o f) ∙ e in
      place_outside file p after x fit small one f ∙ elim (Bool-cases (on_page p x)) [
        | inl g ↦ absurd (let q = sym (ap (λ b. if b then none else o) g) ∙ e' in ground (arith, q))
        | inr g ↦ same g ∙ a c (sym (ap (λ b. if b then none else o) g) ∙ e')
      ]
]
