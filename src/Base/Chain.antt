-- ===== src/Base/Chain.antt =====
-- Lists linked through a `next` field: which list of addresses a chain holds.
use base_kernel.Base.{ℕ, ◌≡◌, ◌≢◌, refl, sym, List, [], ◌∷◌, ◌++◌, All}

-- Following `nx` from `h` visits the addresses of the list, in order, and then stops at NULL.
abbrev pub Chain : (ℕ → ℕ) → ℕ → List ℕ → Type 0
Chain nx h [] = h ≡ 0
Chain nx h (x ∷ xs) = (h ≡ x) × (x ≢ 0) × Chain nx (nx x) xs

abbrev pub NotIn : ℕ → List ℕ → Type 0
NotIn p [] = Unit {0}
NotIn p (x ∷ xs) = (p ≢ x) × NotIn p xs

abbrev pub Distinct : List ℕ → Type 0
Distinct [] = Unit {0}
Distinct (x ∷ xs) = NotIn x xs × Distinct xs

abbrev pub last_or : ℕ → List ℕ → ℕ
last_or d [] = d
last_or d (x ∷ xs) = last_or x xs

pub Chain-cong :
    (nx nx' : ℕ → ℕ) (h : ℕ) (xs : List ℕ)
    → All (λ p. nx' p ≡ nx p) xs
    → Chain nx h xs
    → Chain nx' h xs
Chain-cong nx nx' h [] a c = c
Chain-cong nx nx' h (x ∷ xs) a c = (
  c.0,
  c.1,
  Chain-cong nx nx' (nx' x) xs a.1 (let e = a.0 in ground_head nx (nx x) (nx' x) xs e c.2),
)
  where
    ground_head : (nx : ℕ → ℕ) (a b : ℕ) (ys : List ℕ) → b ≡ a → Chain nx a ys → Chain nx b ys
    ground_head nx a b ys e c = rw e c

pub All-NotIn {ℓ} :
    (P : ℕ → Type ℓ) (q : ℕ) (xs : List ℕ) → ((p : ℕ) → p ≢ q → P p) → NotIn q xs → All P xs
All-NotIn P q [] f n = tt
All-NotIn P q (x ∷ xs) f n = (f x (λ e. n.0 (sym e)), All-NotIn P q xs f n.1)

pub last_or-ne : (p y : ℕ) (ys : List ℕ) → NotIn p (y ∷ ys) → p ≢ last_or y ys
last_or-ne p y [] n = n.0
last_or-ne p y (z ∷ zs) n = last_or-ne p z zs n.1

pub NotIn-append : (p : ℕ) (xs ys : List ℕ) → NotIn p xs → NotIn p ys → NotIn p (xs ++ ys)
NotIn-append p [] ys a b = b
NotIn-append p (x ∷ xs) ys a b = (a.0, NotIn-append p xs ys a.1 b)

pub Distinct-snoc : (xs : List ℕ) (p : ℕ) → Distinct xs → NotIn p xs → Distinct (xs ++ p ∷ [])
Distinct-snoc [] p d n = (tt, tt)
Distinct-snoc (x ∷ xs) p d n =
    (NotIn-append x xs (p ∷ []) d.0 (λ e. n.0 (sym e), tt), Distinct-snoc xs p d.1 n.1)

pub last_or-snoc : (d : ℕ) (xs : List ℕ) (p : ℕ) → last_or d (xs ++ p ∷ []) ≡ p
last_or-snoc d [] p = refl
last_or-snoc d (x ∷ xs) p = last_or-snoc x xs p

-- Linking an address behind the last one appends it.
pub Chain-snoc :
    (nx nx' : ℕ → ℕ) (h x p : ℕ) (xs : List ℕ)
    → Chain nx h (x ∷ xs)
    → Distinct (x ∷ xs)
    → NotIn p (x ∷ xs)
    → p ≢ 0
    → ((q : ℕ) → q ≢ last_or x xs → q ≢ p → nx' q ≡ nx q)
    → nx' (last_or x xs) ≡ p
    → nx' p ≡ 0
    → Chain nx' h (x ∷ xs ++ p ∷ [])
Chain-snoc nx nx' h x p [] c d n nz keep link stop = (c.0, c.1, (link, nz, stop))
Chain-snoc nx nx' h x p (y ∷ ys) c d n nz keep link stop = (
  c.0,
  c.1,
  rw (keep x (last_or-ne x y ys d.0) (λ e. n.0 (sym e)))
      (Chain-snoc nx nx' (nx x) y p ys c.2 d.1 n.1 nz keep link stop),
)
