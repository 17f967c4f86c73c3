-- ===== src/Arp/Tests.antt =====
-- Tests of the cache in net/ethernet.c, and its theorem at a concrete cache.
use base_kernel.Base.{◌≡◌, refl, inr, none, true, arith, [], ◌∷◌}
use base_kernel.Arp.{Cache, find_entry, arp_lookup, arp_update_cache, victim, victim_from}
use base_kernel.Arp.Update.{UpdateOutcome, arp_lookup-update_cache}

-- Both entries are in use; the second is older.
abbrev crowded : Cache
crowded =
    record { ip = 1; mac = 10; timestamp = 8; valid = true }
    ∷ record { ip = 2; mac = 20; timestamp = 3; valid = true }
    ∷ []

evict_older : arp_lookup 2 (arp_update_cache 5 50 9 crowded) ≡ none
unfolding arp_lookup arp_update_cache find_entry victim victim_from
evict_older = refl

arp_lookup-update_cache_example : UpdateOutcome 5 50 9 crowded (arp_update_cache 5 50 9 crowded)
unfolding victim victim_from
arp_lookup-update_cache_example =
    arp_lookup-update_cache 5 50 9 crowded (inr (λ e. ground (arith, e)))
