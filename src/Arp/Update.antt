-- ===== src/Arp/Update.antt =====
-- What a lookup finds behind an update of the cache.
use base_kernel.Base.{
  ℕ, suc, ◌+◌, ◌-◌, ◌^◌, ◌≤◌, ◌<◌, ◌≡◌, ◌≢◌, ◌⊎◌, refl, sym, subst, ap, ◌∙◌, Bool, zero, some_value,
  inl, inr, true, false, [], ◌∷◌, Option, none, some, ltb, ◌==◌, get_or, set, get_or-set_self,
  get_or-set_ne, length-set, arith, length, Bool-cases, Option-cases,
}
use base_kernel.Arp.{
  ArpEntry, Cache, no_entry, is_for, find_entry, arp_lookup, victim_from, victim, arp_update_cache,
}
use base_kernel.Arp.Lookup.{
  IsFirstEntry, find_entry-IsFirstEntry, find_entry_unique, find_entry-cong,
}

abbrev pub is_used : Cache → ℕ → Bool
is_used c j = (get_or c j no_entry).valid

abbrev pub time_of : Cache → ℕ → ℕ
time_of c j = (get_or c j no_entry).timestamp

-- What the search yields over the entries `es`, the first of which has the number `i`: the first free
-- one, or with none free what it had before, or the first of the oldest ones.
data Choice (es : Cache) (i : ℕ) (best : Option ℕ) (oldest : ℕ) (o : Option ℕ) : Type 0 where
  free :
      (k : ℕ)
      → o ≡ some (i + k)
      → k < length es
      → is_used es k ≡ false
      → ((j : ℕ) → j < k → is_used es j ≡ true)
      → Choice es i best oldest o
  keep :
      o ≡ best
      → ((j : ℕ) → j < length es → (is_used es j ≡ true) × (oldest ≤ time_of es j))
      → Choice es i best oldest o
  older :
      (k : ℕ)
      → o ≡ some (i + k)
      → k < length es
      → time_of es k < oldest
      → ((j : ℕ) → j < length es → (is_used es j ≡ true) × (time_of es k ≤ time_of es j))
      → Choice es i best oldest o

below_suc :
    (P : ℕ → Type 0) (n : ℕ) → P 0 → ((j : ℕ) → j < n → P (suc j)) → (j : ℕ) → j < suc n → P j
below_suc P n first later zero h = first
below_suc P n first later (suc j) h = later j (omega arith)

behind : (i k : ℕ) → some (i + 1 + k) ≡ some (i + suc k)
behind i k = let e : i + 1 + k ≡ i + suc k = omega arith in ap some e

-- An entry in use in front of the others.
from_newer :
    (e : ArpEntry) (es : Cache) (i : ℕ) (best : Option ℕ) (oldest : ℕ) (o : Option ℕ)
    → e.valid ≡ true
    → oldest ≤ e.timestamp
    → Choice es (i + 1) best oldest o
    → Choice (e ∷ es) i best oldest o
from_newer e es i best oldest o u n (free k q h f b) =
    free (suc k) (q ∙ behind i k) (omega arith) f (below_suc (λ j. is_used (e ∷ es) j ≡ true) k u b)
from_newer e es i best oldest o u n (keep q all) = keep q (
    below_suc (λ j. (is_used (e ∷ es) j ≡ true) × (oldest ≤ time_of (e ∷ es) j)) (length es) (u, n)
      all)
from_newer e es i best oldest o u n (older k q h t all) =
    older (suc k) (q ∙ behind i k) (omega arith) t (
      below_suc (λ j. (is_used (e ∷ es) j ≡ true) × (time_of es k ≤ time_of (e ∷ es) j)) (length es)
        (u, omega arith) all)

from_older :
    (e : ArpEntry) (es : Cache) (i : ℕ) (best : Option ℕ) (oldest : ℕ) (o : Option ℕ)
    → e.valid ≡ true
    → e.timestamp < oldest
    → Choice es (i + 1) (some i) e.timestamp o
    → Choice (e ∷ es) i best oldest o
from_older e es i best oldest o u n (free k q h f b) =
    free (suc k) (q ∙ behind i k) (omega arith) f (below_suc (λ j. is_used (e ∷ es) j ≡ true) k u b)
from_older e es i best oldest o u n (keep q all) =
    let z : i ≡ i + 0 = omega arith in
    older 0 (q ∙ ap some z) (omega arith) n (
      below_suc (λ j. (is_used (e ∷ es) j ≡ true) × (e.timestamp ≤ time_of (e ∷ es) j)) (length es)
        (u, omega arith) all)
from_older e es i best oldest o u n (older k q h t all) =
    older (suc k) (q ∙ behind i k) (omega arith) (omega arith) (
      below_suc (λ j. (is_used (e ∷ es) j ≡ true) × (time_of es k ≤ time_of (e ∷ es) j)) (length es)
        (u, omega arith) all)

victim_from-Choice :
    (c : Cache) (i : ℕ) (best : Option ℕ) (oldest : ℕ)
    → Choice c i best oldest (victim_from c i best oldest)
unfolding victim_from
victim_from-Choice [] i best oldest = keep refl (λ j h. absurd (omega arith))
victim_from-Choice (e ∷ es) i best oldest = elim (Bool-cases e.valid) [
  | inl used ↦ elim (Bool-cases (ltb e.timestamp oldest)) [
    | inl old ↦
        let q : victim_from (e ∷ es) i best oldest ≡ victim_from es (i + 1) (some i) e.timestamp =
          rw (victim_from, used, old) refl in
        from_older e es i best oldest _ used (ground arith) (
          subst (Choice es (i + 1) (some i) e.timestamp) (sym q)
            (victim_from-Choice es (i + 1) (some i) e.timestamp))
    | inr new ↦
        let q : victim_from (e ∷ es) i best oldest ≡ victim_from es (i + 1) best oldest =
          rw (victim_from, used, new) refl in
        from_newer e es i best oldest _ used (ground arith) (
          subst (Choice es (i + 1) best oldest) (sym q) (victim_from-Choice es (i + 1) best oldest))
  ]
  | inr empty ↦
      let q : victim_from (e ∷ es) i best oldest ≡ some i = rw (victim_from, empty) refl in
      let z : i ≡ i + 0 = omega arith in
      free 0 (q ∙ ap some z) (omega arith) empty (λ j h. absurd (omega arith))
]

-- The first free entry; or if all are in use, one that is as old as any.
pub IsVictim : Cache → ℕ → Type 0
IsVictim c k =
    (k < length c)
    × (((is_used c k ≡ false) × ((j : ℕ) → j < k → is_used c j ≡ true))
        ⊎ ((j : ℕ) → j < length c → (is_used c j ≡ true) × (time_of c k ≤ time_of c j)))

victim-IsVictim : (c : Cache) (k : ℕ) → victim c ≡ some k → IsVictim c k
unfolding victim IsVictim
victim-IsVictim c k e = go (victim_from-Choice c 0 none (2 ^ 64 - 1))
  where
    go : Choice c 0 none (2 ^ 64 - 1) (victim c) → IsVictim c k
    go (free j q h f b) =
        let s : j ≡ k = (let z = some_value (sym q ∙ e) in omega (arith, z)) in
        subst (IsVictim c) s (h, inl (f, b))
    go (keep q all) = absurd (let z = sym q ∙ e in ground (arith, z))
    go (older j q h t all) =
        let s : j ≡ k = (let z = some_value (sym q ∙ e) in omega (arith, z)) in
        subst (IsVictim c) s (h, inr all)

victim-lt : (c : Cache) (k : ℕ) → victim c ≡ some k → k < length c
unfolding IsVictim
victim-lt c k e = (victim-IsVictim c k e).0

-- The entry that a new address is written over.
abbrev pub IsEvicted : ℕ → ℕ → Cache → Type 0
IsEvicted ip other c =
    (k : ℕ) × (find_entry ip c ≡ none)
    × (victim c ≡ some k)
    × (is_for other (get_or c k no_entry) ≡ true)

-- A write to an entry after which the address is looked up.
found_written :
    (ip i : ℕ) (e : ArpEntry) (c : Cache)
    → i < length c
    → is_for ip e ≡ true
    → ((j : ℕ) → j < i → is_for ip (get_or c j no_entry) ≡ false)
    → arp_lookup ip (set c i e) ≡ some e.mac
unfolding arp_lookup
found_written ip i e c h this before =
    let self = get_or-set_self c i e no_entry h in
    let f : IsFirstEntry ip (set c i e) (some i) = (
      omega (arith, length-set c i e),
      rw self this,
      λ j lt. rw (get_or-set_ne c i j e no_entry (λ q. absurd (omega arith))) (before j lt),
    ) in
    rw (arp_lookup, find_entry_unique ip (set c i e) i f, self) refl

-- A write to an entry that is of another address before and after.
kept_written :
    (other i : ℕ) (e : ArpEntry) (c : Cache)
    → i < length c
    → is_for other e ≡ false
    → is_for other (get_or c i no_entry) ≡ false
    → arp_lookup other (set c i e) ≡ arp_lookup other c
unfolding arp_lookup
kept_written other i e c h new old =
    let self = get_or-set_self c i e no_entry h in
    let same : (j : ℕ)
        → is_for other (get_or (set c i e) j no_entry) ≡ is_for other (get_or c j no_entry) =
      λ j. elim (Bool-cases (i == j)) [
        | inl q ↦ let p : j ≡ i = ground arith in rw (p, self, old) new
        | inr q ↦ rw (get_or-set_ne c i j e no_entry (λ p. ground arith)) refl
      ] in
    rw (arp_lookup, find_entry-cong other c (set c i e) (length-set c i e) same)
      (at (find_entry other c) (find_entry-IsFirstEntry other c))
  where
    at :
        (o : Option ℕ)
        → IsFirstEntry other c o
        → (elim o as (λ x. Option ℕ) [
          | none ↦ none
          | some k ↦ some (get_or (set c i e) k no_entry).mac
        ])
          ≡ (elim o as (λ x. Option ℕ) [ none ↦ none | some k ↦ some (get_or c k no_entry).mac ])
    at none f = refl
    at (some k) f =
        rw
          (get_or-set_ne c i k e no_entry (λ p.
            let q = f.1 in
            absurd (clash (subst (λ m. is_for other (get_or c m no_entry) ≡ true) (sym p) q))))
          refl
      where
        clash : is_for other (get_or c i no_entry) ≡ true → ⊥
        clash t = ground arith

-- What an update that had an entry to write to has written, and what a lookup finds afterwards.
abbrev pub UpdateOutcome : ℕ → ℕ → ℕ → Cache → Cache → Type 0
UpdateOutcome ip mac now c c' =
    (arp_lookup ip c' ≡ some mac)
    × (find_entry ip c ≡ none
        → (k : ℕ) × IsVictim c k
          × (c' ≡ set c k (record { ip = ip; mac = mac; timestamp = now; valid = true })))
    × ((other : ℕ) → other ≢ ip → (arp_lookup other c' ≡ arp_lookup other c) ⊎ IsEvicted ip other c)

-- After an update that finds an entry to write, a lookup of the address yields the new hardware
-- address. If the address had no entry, the new one is written over the first free entry, or with all
-- in use over one that is as old as any. A lookup of another address yields what it did before, unless
-- its entry was evicted for an address that had none.
pub arp_lookup-update_cache :
    (ip mac now : ℕ) (c : Cache)
    → (find_entry ip c ≢ none) ⊎ (victim c ≢ none)
    → UpdateOutcome ip mac now c (arp_update_cache ip mac now c)
unfolding arp_update_cache
arp_lookup-update_cache ip mac now c room = elim (Option-cases (find_entry ip c)) [
  | inl none_found ↦ elim (Option-cases (victim c)) [
    | inl no_victim ↦ absurd (elim room [ inl a ↦ a none_found | inr a ↦ a no_victim ])
    | inr (k, v) ↦
        let e : ArpEntry = record { ip = ip; mac = mac; timestamp = now; valid = true } in
        let h = victim-lt c k v in
        let before : (j : ℕ) → is_for ip (get_or c j no_entry) ≡ false =
          subst (IsFirstEntry ip c) none_found (find_entry-IsFirstEntry ip c) in
        let u : arp_update_cache ip mac now c ≡ set c k e =
          rw (arp_update_cache, none_found, v) refl in
        rw u (
          found_written ip k e c h (ground arith) (λ j lt. before j),
          λ fresh. (k, victim-IsVictim c k v, refl),
          λ other ne. elim (Bool-cases (is_for other (get_or c k no_entry))) [
            | inl hit ↦ inr (k, none_found, v, hit)
            | inr miss ↦ inl (kept_written other k e c h (ground arith) miss)
          ],
        )
  ]
  | inr (i, found) ↦
      let e : ArpEntry = record (get_or c i no_entry) { mac = mac; timestamp = now } in
      let f : IsFirstEntry ip c (some i) =
        subst (IsFirstEntry ip c) found (find_entry-IsFirstEntry ip c) in
      let t = f.1 in
      let u : arp_update_cache ip mac now c ≡ set c i e = rw (arp_update_cache, found) refl in
      rw u (
        found_written ip i e c f.0 t f.2,
        λ fresh. absurd (let q = sym found ∙ fresh in ground (arith, q)),
        λ other ne. inl (kept_written other i e c f.0 (ground arith) (ground arith)),
      )
]
