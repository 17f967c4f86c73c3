-- ===== src/Net/Tcp/Demux.antt =====
-- The search of `tcp_input` for the control block of a segment.
use base_kernel.Base.{
  ℕ, ◌≡◌, refl, ap, ◌∙◌, ◌⊎◌, inl, inr, Bool, true, false, ◌&&◌, List, [], ◌∷◌, Option, none, some,
  ◌==◌, if◌then◌else◌, Bool-cases,
}
use base_kernel.Net.State.{Pcb}
use base_kernel.Net.Tcp.{Match, listener, connected, ignored_state, kind, find_pcb}

abbrev pub is_connected : Pcb → Bool
is_connected c = elim (kind c.state) [ listener ↦ false | ignored_state ↦ false | connected ↦ true ]

abbrev pub is_listener : Pcb → Bool
is_listener c = elim (kind c.state) [ listener ↦ true | ignored_state ↦ false | connected ↦ false ]

-- The first connection between the two ports.
pub first_connection : (ℕ → Pcb) → ℕ → ℕ → List ℕ → Option ℕ
first_connection pcb_at dest src [] = none
first_connection pcb_at dest src (a ∷ list) =
    let c = pcb_at a in
    let rest = first_connection pcb_at dest src list in
    if c.local_port == dest && (is_connected c && c.remote_port == src) then some a else rest

abbrev pub or_else : Option ℕ → Option ℕ → Option ℕ
or_else none o = o
or_else (some a) o = some a

-- The last block that listens on the port.
pub last_listener : (ℕ → Pcb) → ℕ → List ℕ → Option ℕ
last_listener pcb_at dest [] = none
last_listener pcb_at dest (a ∷ list) =
    let c = pcb_at a in
    or_else (last_listener pcb_at dest list)
      (if c.local_port == dest && is_listener c then some a else none)

or_else-none : (o : Option ℕ) → or_else o none ≡ o
or_else-none none = refl
or_else-none (some a) = refl

or_else_assoc : (a b c : Option ℕ) → or_else (or_else a b) c ≡ or_else a (or_else b c)
or_else_assoc none b c = refl
or_else_assoc (some a) b c = refl

Match-cases : (k : Match) → (k ≡ listener) ⊎ (k ≡ ignored_state) ⊎ (k ≡ connected)
Match-cases listener = inl refl
Match-cases ignored_state = inr (inl refl)
Match-cases connected = inr (inr refl)

module _ (pcb_at : ℕ → Pcb) (dest src a : ℕ) (list : List ℕ) where
  last_hit :
      ((pcb_at a).local_port == dest && is_listener (pcb_at a)) ≡ true
      → (found : Option ℕ)
      → or_else (last_listener pcb_at dest (a ∷ list)) found
        ≡ or_else (last_listener pcb_at dest list) (some a)
  unfolding last_listener
  last_hit h found = rw h (or_else_assoc (last_listener pcb_at dest list) (some a) found)

  last_miss :
      ((pcb_at a).local_port == dest && is_listener (pcb_at a)) ≡ false
      → last_listener pcb_at dest (a ∷ list) ≡ last_listener pcb_at dest list
  unfolding last_listener
  last_miss h = rw h (or_else-none (last_listener pcb_at dest list))

  first_miss :
      ((pcb_at a).local_port == dest && (is_connected (pcb_at a) && (pcb_at a).remote_port == src))
        ≡ false
      → first_connection pcb_at dest src (a ∷ list) ≡ first_connection pcb_at dest src list
  unfolding first_connection
  first_miss h = rw h refl

  first_hit :
      ((pcb_at a).local_port == dest && (is_connected (pcb_at a) && (pcb_at a).remote_port == src))
        ≡ true
      → first_connection pcb_at dest src (a ∷ list) ≡ some a
  unfolding first_connection
  first_hit h = rw h refl

find_nothing :
    (pcb_at : ℕ → Pcb) (dest src : ℕ) (found : Option ℕ)
    → found
      ≡ or_else (first_connection pcb_at dest src []) (or_else (last_listener pcb_at dest []) found)
unfolding first_connection last_listener
find_nothing pcb_at dest src found = refl

find_pcb_from :
    (pcb_at : ℕ → Pcb) (dest src : ℕ) (list : List ℕ) (found : Option ℕ)
    → find_pcb pcb_at dest src list found
      ≡ or_else
          (first_connection pcb_at dest src list)
          (or_else (last_listener pcb_at dest list) found)
unfolding find_pcb
find_pcb_from pcb_at dest src [] found = find_nothing pcb_at dest src found
find_pcb_from pcb_at dest src (a ∷ list) found =
    let c = pcb_at a in
    let n = find_pcb_from pcb_at dest src list found in
    elim (Bool-cases (c.local_port == dest)) [
      | inr other ↦
          rw
            (
              first_miss pcb_at dest src a list (rw other refl),
              last_miss pcb_at dest src a list (rw other refl),
            )
            (rw (find_pcb, other) n)
      | inl here ↦ elim (Match-cases (kind c.state)) [
        | inl k ↦
            rw
              (
                first_miss pcb_at dest src a list (rw (is_connected, here, k) refl),
                last_hit pcb_at dest src a list (rw (is_listener, here, k) refl) found,
              )
              (rw (find_pcb, here, k) (find_pcb_from pcb_at dest src list (some a)))
        | inr (inl k) ↦
            rw
              (
                first_miss pcb_at dest src a list (rw (is_connected, here, k) refl),
                last_miss pcb_at dest src a list (rw (is_listener, here, k) refl),
              )
              (rw (find_pcb, here, k) n)
        | inr (inr k) ↦ elim (Bool-cases (c.remote_port == src)) [
          | inl r ↦
              rw (first_hit pcb_at dest src a list (rw (is_connected, here, k, r) refl))
                (rw (find_pcb, here, k, r) refl)
          | inr r ↦
              rw
                (
                  first_miss pcb_at dest src a list (rw (is_connected, here, k, r) refl),
                  last_miss pcb_at dest src a list (rw (is_listener, here, k) refl),
                )
                (rw (find_pcb, here, k, r) n)
        ]
      ]
    ]

-- The search finds the first connection between the two ports in the list, whatever listens before
-- it; without one it finds the last block in the list that listens on the port.
pub find_pcb_lem :
    (pcb_at : ℕ → Pcb) (dest src : ℕ) (list : List ℕ)
    → find_pcb pcb_at dest src list none
      ≡ or_else (first_connection pcb_at dest src list) (last_listener pcb_at dest list)
find_pcb_lem pcb_at dest src list =
    find_pcb_from pcb_at dest src list none
    ∙ ap (or_else (first_connection pcb_at dest src list))
        (or_else-none (last_listener pcb_at dest list))
