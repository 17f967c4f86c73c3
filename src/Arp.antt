-- ===== src/Arp.antt =====
-- net/ethernet.c: the cache that maps IP addresses to hardware addresses. The hardware address is one
-- number of 48 bits, and the clock of `sys_get_ticks` is an argument.
pub mod Lookup
pub mod Update
mod Tests
use base_kernel.Base.{
  ℕ, zero, suc, ◌+◌, ◌-◌, ◌^◌, Bool, true, false, ◌&&◌, List, [], ◌∷◌, Option, none, some, ltb,
  ◌==◌, if◌then◌else◌, get_or, set, replicate,
}

abbrev pub arp_cache_size : ℕ
arp_cache_size = 64

pub record ArpEntry : Type 0 where
  pub ip : ℕ
  pub mac : ℕ
  pub timestamp : ℕ
  pub valid : Bool

abbrev pub no_entry : ArpEntry
no_entry = record { ip = 0; mac = 0; timestamp = 0; valid = false }

abbrev pub Cache : Type 0
Cache = List ArpEntry

abbrev pub is_for : ℕ → ArpEntry → Bool
is_for ip e = e.valid && e.ip == ip

-- The first valid entry of an address.
unfoldable pub find_entry : ℕ → Cache → Option ℕ
find_entry ip [] = none
find_entry ip (e ∷ es) =
    let rest = find_entry ip es in
    if is_for ip e then some 0 else elim rest [ none ↦ none | some i ↦ some (suc i) ]

-- `none` for -1.
unfoldable pub arp_lookup : ℕ → Cache → Option ℕ
arp_lookup ip c = elim (find_entry ip c) [ none ↦ none | some i ↦ some (get_or c i no_entry).mac ]

-- The search for an empty or the oldest entry, at entry `i`, with what it found so far: the index,
-- `none` for -1, and its time.
pub victim_from : Cache → ℕ → Option ℕ → ℕ → Option ℕ
victim_from [] i idx oldest = idx
victim_from (e ∷ es) i idx oldest =
    if e.valid
    then (if ltb e.timestamp oldest
        then victim_from es (i + 1) (some i) e.timestamp
        else victim_from es (i + 1) idx oldest)
    else some i

pub victim : Cache → Option ℕ
victim c = victim_from c 0 none (2 ^ 64 - 1)

pub arp_update_cache : ℕ → ℕ → ℕ → Cache → Cache
arp_update_cache ip mac now c = elim (find_entry ip c) [
  | some i ↦ set c i (record (get_or c i no_entry) { mac = mac; timestamp = now })
  | none ↦ elim (victim c) [
    | none ↦ c
    | some i ↦ set c i (record { ip = ip; mac = mac; timestamp = now; valid = true })
  ]
]

-- The cache at the start: all zero bytes.
abbrev pub empty_cache : Cache
empty_cache = replicate arp_cache_size no_entry
