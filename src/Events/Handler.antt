-- ===== src/Events/Handler.antt =====
-- Which queues an interrupt's event reaches.
use base_kernel.Base.{
  ℕ, zero, suc, ◌+◌, ◌<◌, ◌≡◌, ◌≢◌, refl, sym, ap, subst, ◌∙◌, inl, inr, false, [], ◌∷◌, ◌++◌, some,
  leb, ltb, ◌==◌, ◌&&◌, if◌then◌else◌, Bool-cases, Option-cases, arith, get_or, set, length,
  get_or-set_self, get_or-set_ne,
}
use base_kernel.Events.{Event, event_queue_size}
use base_kernel.Events.Spec.{Slot, Slots, free_slot, find_slot, push, post_slot, post_all}

abbrev pub owner_at : Slots → ℕ → ℕ
owner_at t j = (get_or t j free_slot).owner

find_slot-owner :
    (p : ℕ) (t : Slots) (i : ℕ) → find_slot p t ≡ some i → (owner_at t i ≡ p) × (i < length t)
unfolding find_slot
find_slot-owner p [] i e = cc
find_slot-owner p (s ∷ ss) i e = elim (Bool-cases (s.owner == p)) [
  | inl hit ↦ let z : i ≡ 0 = ground arith in rw z (ground arith, omega arith)
  | inr miss ↦ elim (Option-cases (find_slot p ss)) [
    | inl n ↦ ground arith
    | inr (k, f) ↦
        let r = find_slot-owner p ss k f in
        let z : i ≡ suc k = ground arith in rw z (r.0, omega (arith, r.1))
  ]
]

find_slot-set :
    (p : ℕ) (t : Slots) (i : ℕ) (s : Slot)
    → s.owner ≡ owner_at t i
    → find_slot p (set t i s) ≡ find_slot p t
unfolding find_slot
find_slot-set p [] i s e = refl
find_slot-set p (x ∷ xs) zero s e = rw e refl
find_slot-set p (x ∷ xs) (suc i) s e = rw (find_slot-set p xs i s e) refl

push-owner : (e : Event) (s : Slot) {s' : Slot} → push e s ≡ some s' → s'.owner ≡ s.owner
unfolding push
push-owner e s {s'} h = ground arith

-- What a post for `target` does to the slot `j`.
post_slot_effect :
    (target : ℕ) (e : Event) (t : Slots) (j : ℕ)
    → ((p : ℕ) → find_slot p (post_slot target e t).1 ≡ find_slot p t)
      × (find_slot target t ≢ some j
          → get_or (post_slot target e t).1 j free_slot ≡ get_or t j free_slot)
unfolding post_slot
post_slot_effect target e t j = elim (Option-cases (find_slot target t)) [
  | inl f ↦ rw (f, post_slot) (λ p. refl, λ h. refl)
  | inr (i, f) ↦ elim (Option-cases (push e (get_or t i free_slot))) [
    | inl full ↦ rw (f, post_slot, full, post_slot) (λ p. refl, λ h. refl)
    | inr (s', ok) ↦
        rw (f, post_slot, ok, post_slot)
          (
            λ p. find_slot-set p t i s' (push-owner e _ {s' = s'} ok),
            λ h. get_or-set_ne t i j s' free_slot (λ q. h (ap some q)),
          )
  ]
]

owner-post_slot :
    (target : ℕ) (e : Event) (t : Slots) (j : ℕ)
    → owner_at (post_slot target e t).1 j ≡ owner_at t j
unfolding post_slot
owner-post_slot target e t j = elim (Option-cases (find_slot target t)) [
  | inl f ↦ rw (f, post_slot) refl
  | inr (i, f) ↦ elim (Option-cases (push e (get_or t i free_slot))) [
    | inl full ↦ rw (f, post_slot, full, post_slot) refl
    | inr (s', ok) ↦
        rw (f, post_slot, ok, post_slot)
          (elim (Bool-cases (i == j)) [
            | inl q ↦
                let q' : j ≡ i = ground arith in
                rw q' (
                  ap (λ (s : Slot). s.owner)
                    (get_or-set_self t i s' free_slot (find_slot-owner target t i f).1)
                  ∙ push-owner e _ {s' = s'} ok)
            | inr q ↦ ap (λ (s : Slot). s.owner) (get_or-set_ne t i j s' free_slot (ground arith))
          ])
  ]
]

-- A slot that is not the first one of its owner is passed over by every interrupt: its pending
-- events do not change.
pub second_queue_starves :
    (e : Event) (n k : ℕ) (t : Slots) (i j : ℕ)
    → find_slot (owner_at t j) t ≡ some i
    → i ≢ j
    → get_or (post_all e n k t) j free_slot ≡ get_or t j free_slot
unfolding post_all
second_queue_starves e zero k t i j f ne = refl
second_queue_starves e (suc n) k t i j f ne = elim (Bool-cases (owner_at t k == 0)) [
  | inl z ↦ rw z (second_queue_starves e n (k + 1) t i j f ne)
  | inr nz ↦
      let pid = owner_at t k in
      let effect = post_slot_effect pid e t j in
      let o = owner-post_slot pid e t j in
      let kept = effect.1 (λ hit.
        let same : owner_at t j ≡ pid = (find_slot-owner pid t j hit).0 in
        let f' : find_slot pid t ≡ some i = subst (λ p. find_slot p t ≡ some i) same f in
        ne (cc)) in
      rw nz (
        second_queue_starves e n (k + 1) (post_slot pid e t).1 i j (rw o (effect.0 _ ∙ f)) ne
        ∙ kept)
]

-- The slot after an event was offered to it.
abbrev pub offered : Event → Slot → Slot
offered e s =
    if leb event_queue_size (length s.pending)
    then s
    else record s { pending = s.pending ++ e ∷ [] }

post_slot_offers :
    (target : ℕ) (e : Event) (t : Slots) (j : ℕ)
    → find_slot target t ≡ some j
    → get_or (post_slot target e t).1 j free_slot ≡ offered e (get_or t j free_slot)
unfolding post_slot push
post_slot_offers target e t j f =
    let s = get_or t j free_slot in
    rw (f, post_slot)
      (elim (Bool-cases (leb event_queue_size (length s.pending))) [
        | inl full ↦ rw (full, post_slot) refl
        | inr room ↦
            rw (room, post_slot) (get_or-set_self t j _ free_slot (find_slot-owner target t j f).1)
      ])

-- The slot `j` is the only one of its owner.
abbrev pub IsSole : Slots → ℕ → Type 0
IsSole t j =
    (owner_at t j ≢ 0)
    × (find_slot (owner_at t j) t ≡ some j)
    × ((m : ℕ) → owner_at t m ≡ owner_at t j → m ≡ j)

post_slot-IsSole :
    (target : ℕ) (e : Event) (t : Slots) (j : ℕ) → IsSole t j → IsSole (post_slot target e t).1 j
post_slot-IsSole target e t j u =
    let o = owner-post_slot target e t in
    (
      λ z. u.0 (sym (o j) ∙ z),
      rw (o j) ((post_slot_effect target e t j).0 _ ∙ u.1),
      λ m q. u.2 m (sym (o m) ∙ q ∙ o j),
    )

-- The rounds `k`, …, `k + n - 1` of an interrupt's loop offer the event once to each slot among
-- them that is the only one of its owner, and change no other such slot.
pub broadcast_offers :
    (e : Event) (n k : ℕ) (t : Slots) (j : ℕ)
    → IsSole t j
    → get_or (post_all e n k t) j free_slot ≡ (
        if leb k j && ltb j (k + n) then offered e (get_or t j free_slot) else get_or t j free_slot)
unfolding post_all
broadcast_offers e zero k t j u = ground arith
broadcast_offers e (suc n) k t j u = elim (Bool-cases (k == j)) [
  | inl here ↦
      let q : k ≡ j = ground arith in
      let nz : (owner_at t j == 0) ≡ false = ground (arith, u.0) in
      let rest =
        broadcast_offers e n (j + 1) (post_slot (owner_at t j) e t).1 j
          (post_slot-IsSole _ e t j u) in
      rw (q, nz) (rest ∙ rw (post_slot_offers (owner_at t j) e t j u.1) (ground arith))
  | inr elsewhere ↦ elim (Bool-cases (owner_at t k == 0)) [
    | inl z ↦ rw z (broadcast_offers e n (k + 1) t j u ∙ ground arith)
    | inr nz ↦
        let pid = owner_at t k in
        let rest =
          broadcast_offers e n (k + 1) (post_slot pid e t).1 j (post_slot-IsSole pid e t j u) in
        let kept = (post_slot_effect pid e t j).1 (λ hit.
          let same : owner_at t j ≡ pid = (find_slot-owner pid t j hit).0 in
          ground (arith, u.2 k)) in
        rw nz (rest ∙ rw kept (ground arith))
  ]
]
