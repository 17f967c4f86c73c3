-- ===== src/Net/Bytes.antt =====
-- Packet buffers as bytes: reads and writes of the fields of packed structures, whose numbers stand
-- with their low byte first, the byte order functions of net/net_core.c and the `checksum` of
-- net/ipv4.c. Where `|` joins parts without a common bit, it is a sum.
pub mod Fields
pub mod Checksum
use base_kernel.Base.{
  ℕ, zero, suc, ◌+◌, ◌-◌, ◌*◌, ◌/◌, ◌%◌, ◌^◌, Bool, true, false, ◌==◌, if◌then◌else◌, ltb, ◌&&◌,
  leb, add32, List, [], ◌∷◌, ◌++◌,
}

-- The byte at each offset from `head`.
abbrev pub Buffer : Type 0
Buffer = ℕ → ℕ

abbrev pub load16 : Buffer → ℕ → ℕ
load16 b p = b p + 2 ^ 8 * b (p + 1)

abbrev pub load32 : Buffer → ℕ → ℕ
load32 b p = load16 b p + 2 ^ 16 * load16 b (p + 2)

-- Six bytes, as one number.
abbrev pub load48 : Buffer → ℕ → ℕ
load48 b p = load32 b p + 2 ^ 32 * load16 b (p + 4)

abbrev pub store8 : ℕ → ℕ → Buffer → Buffer
store8 p v b o = if o == p then v % 2 ^ 8 else b o

abbrev pub store16 : ℕ → ℕ → Buffer → Buffer
store16 p v b = store8 (p + 1) (v / 2 ^ 8) (store8 p v b)

-- `memcpy(b + p, src + q, n)` between two buffers.
abbrev pub copy : ℕ → Buffer → ℕ → ℕ → Buffer → Buffer
copy p src q n b o = if leb p o && ltb o (p + n) then src (q + (o - p)) else b o

-- The fields of a packed structure, byte by byte.
abbrev pub u16 : ℕ → List ℕ
u16 v = v % 2 ^ 8 ∷ v / 2 ^ 8 % 2 ^ 8 ∷ []

abbrev pub u32 : ℕ → List ℕ
u32 v = u16 v ++ u16 (v / 2 ^ 16)

abbrev pub u48 : ℕ → List ℕ
u48 v = u32 v ++ u16 (v / 2 ^ 32)

unfoldable pub write_bytes : ℕ → List ℕ → Buffer → Buffer
write_bytes p [] b = b
write_bytes p (v ∷ vs) b = store8 p v (write_bytes (p + 1) vs b)

unfoldable pub htons : ℕ → ℕ
htons v = v / 2 ^ 8 + v % 2 ^ 8 * 2 ^ 8

abbrev pub ntohs : ℕ → ℕ
ntohs v = htons v

unfoldable pub htonl : ℕ → ℕ
htonl v = v % 2 ^ 8 * 2 ^ 24 + v / 2 ^ 8 % 2 ^ 8 * 2 ^ 16 + v / 2 ^ 16 % 2 ^ 8 * 2 ^ 8 + v / 2 ^ 24

abbrev pub ntohl : ℕ → ℕ
ntohl v = htonl v

-- The first loop of `checksum` and the odd byte behind it, from offset `p` with `sum` so far.
pub sum_words : Buffer → ℕ → ℕ → ℕ → ℕ
sum_words b p zero sum = sum
sum_words b p (suc zero) sum = add32 sum (b p)
sum_words b p (suc (suc len)) sum = sum_words b (p + 2) len (add32 sum (load16 b p))

-- The second loop of `checksum`, for that many rounds at most.
pub fold_sum : ℕ → ℕ → ℕ
fold_sum zero sum = sum
fold_sum (suc rounds) sum =
    let folded = fold_sum rounds (sum % 2 ^ 16 + sum / 2 ^ 16) in
    if sum / 2 ^ 16 == 0 then sum else folded

-- The sums have 32 bits, so that two rounds are enough.
pub checksum : Buffer → ℕ → ℕ → ℕ
checksum b p len = 2 ^ 16 - 1 - fold_sum 2 (sum_words b p len 0) % 2 ^ 16
