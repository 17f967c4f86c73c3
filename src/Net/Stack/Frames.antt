-- ===== src/Net/Stack/Frames.antt =====
-- A frame that is put together by `ethernet_output` and taken apart by `ethernet_input`.
use base_kernel.Base.{
  ℕ, ◌+◌, ◌-◌, ◌^◌, ◌≤◌, ◌<◌, ◌≡◌, refl, ap, ◌∙◌, inl, false, ltb, arith, add32, sub32, All,
}
use base_kernel.Net.Bytes.{load16, htons, ntohs}
use base_kernel.Net.Bytes.Checksum.{htons-htons}
use base_kernel.Net.Bytes.Fields.{write_bytes_at, write_bytes_outside}
use base_kernel.Net.State.{Packet, Net, Sender}
use base_kernel.Net.Ethernet.{framed, eth_header}
use base_kernel.Net.Stack.{dispatch_frame, ethernet_input}

eth_header-bytes : (dest src type : ℕ) → All (λ v. v < 2 ^ 8) (eth_header dest src type)
eth_header-bytes dest src type = (
  omega arith,
  (
    omega arith,
    (
      omega arith,
      (
        omega arith,
        (
          omega arith,
          (
            omega arith,
            (
              omega arith,
              (
                omega arith,
                (
                  omega arith,
                  (omega arith, (omega arith, (omega arith, (omega arith, (omega arith, _))))),
                ),
              ),
            ),
          ),
        ),
      ),
    ),
  ),
)

htons_bound : (v : ℕ) → v < 2 ^ 16 → htons v < 2 ^ 16
unfolding htons
htons_bound v h = omega arith

-- A packet with room for a frame header in front comes out of its frame with its own place and
-- length, with the type that the frame was given and with the bytes it had from its place on.
pub ethernet_input-framed :
    (send : Sender) (a dest src type : ℕ) (p : Packet) (n : Net)
    → 14 ≤ p.data_at
    → p.len < 2 ^ 32 - 14
    → type < 2 ^ 16
    → let f = framed dest src type p in
      (ethernet_input send a f n
        ≡ dispatch_frame send type a
            (record p { buffer = f.buffer; l2_header = p.data_at - 14; protocol = type })
            n)
      × ((o : ℕ) → p.data_at ≤ o → f.buffer o ≡ p.buffer o)
unfolding ethernet_input
ethernet_input-framed send a dest src type p n room short small =
    let f = framed dest src type p in
    let d = p.data_at - 14 in
    let h = eth_header dest src type in
    let low = write_bytes_at d 12 h p.buffer (eth_header-bytes dest src type) (omega arith) in
    let high = write_bytes_at d 13 h p.buffer (eth_header-bytes dest src type) (omega arith) in
    let at : d + 12 + 1 ≡ d + 13 = omega arith in
    let bound = htons_bound type small in
    let word : load16 f.buffer (d + 12) ≡ htons type = rw at (omega (arith, low, high)) in
    let t : ntohs (load16 f.buffer (d + 12)) ≡ type = ap htons word ∙ htons-htons type small in
    let long : ltb (add32 p.len 14) 14 ≡ false = ground arith in
    let place : d + 14 ≡ p.data_at = omega arith in
    let length : sub32 (add32 p.len 14) 14 ≡ p.len = omega arith in
    (
      rw (ethernet_input, long, t, place, length) refl,
      λ o k. write_bytes_outside d o h p.buffer (inl (omega arith)),
    )
