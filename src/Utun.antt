-- ===== src/Utun.antt =====
-- include/tp/utun.hpp and src/utun.cpp: how the utun device sends a segment. The file descriptor is a
-- state of any type with the system's `write` on it.
pub mod Drain
pub mod Kinds
pub mod Taken
pub mod Returns
use tcp_probe.Prelude.{ℕ, ◌+◌, Option, none, some, List, [], ◌∷◌, ◌++◌, length, ◌==◌, if◌then◌else◌}
use tcp_probe.Word.{u16}
use tcp_probe.Segment.{Seg}
use tcp_probe.Packet.{InAddr, build}

-- What `write` returns: an error number, or how many bytes it has taken.
pub data Written : Type 0 where
  failed : ℕ → Written
  wrote : ℕ → Written

-- The device but for its name and the size of its receive buffer; `fd` is the descriptor's state.
pub record Utun (O : Type 0) : Type 0 where
  pub fd : O
  pub local : InAddr
  pub peer : InAddr
  pub ip_id : ℕ
  pub frames_written : ℕ
  pub segments_read : ℕ
  pub non_ipv4_frames : ℕ
  pub unparseable : ℕ
  pub peak_burst_frames : ℕ
  pub peak_burst_bytes : ℕ

abbrev pub too_large : List ℕ
too_large =
    b's' ∷ b'e' ∷ b'g' ∷ b'm' ∷ b'e' ∷ b'n' ∷ b't' ∷ 32 ∷ b'd' ∷ b'o' ∷ b'e' ∷ b's' ∷ 32 ∷ b'n'
    ∷ b'o' ∷ b't' ∷ 32 ∷ b'f' ∷ b'i' ∷ b't' ∷ 32 ∷ b'i' ∷ b'n' ∷ 32 ∷ b'a' ∷ 32 ∷ b'1' ∷ b'5' ∷ b'0'
    ∷ b'0' ∷ b'-' ∷ b'b' ∷ b'y' ∷ b't' ∷ b'e' ∷ 32 ∷ b'f' ∷ b'r' ∷ b'a' ∷ b'm' ∷ b'e' ∷ []

abbrev pub write_failed : List ℕ
write_failed =
    b'w' ∷ b'r' ∷ b'i' ∷ b't' ∷ b'e' ∷ b'(' ∷ b'u' ∷ b't' ∷ b'u' ∷ b'n' ∷ b')' ∷ b':' ∷ 32 ∷ []

abbrev pub short_write : List ℕ
short_write =
    b's' ∷ b'h' ∷ b'o' ∷ b'r' ∷ b't' ∷ 32 ∷ b'w' ∷ b'r' ∷ b'i' ∷ b't' ∷ b'e' ∷ 32 ∷ b't' ∷ b'o' ∷ 32
    ∷ b'u' ∷ b't' ∷ b'u' ∷ b'n' ∷ []

-- The size of `pkt`.
abbrev pub packet_room : ℕ
packet_room = 4 + 1500

module _ {O : Type 0} (write : O → List ℕ → O × Written) (strerror : ℕ → List ℕ) where
  -- What `send` makes of the result of `write`, for a packet of `n` bytes.
  abbrev pub after_write : Utun O → ℕ → Written → Utun O × Option (List ℕ)
  after_write u n (failed errno) = (u, some (write_failed ++ strerror errno))
  after_write u n (wrote w) =
      if w == n
      then (record u { frames_written = u.frames_written + 1 }, none)
      else (u, some short_write)

  -- `Utun::send`: the text is what it puts into `*err` where it returns false.
  unfoldable pub send : {T : Type 0} → Utun O → Seg T → Utun O × Option (List ℕ)
  send u s =
      let u' : Utun O = record u { ip_id = u16 (u.ip_id + 1) } in
      elim (build packet_room u.peer u.local s u.ip_id) [
        | none ↦ (u', some too_large)
        | some pkt ↦
            (let (fd, w) = write u.fd pkt in after_write (record u' { fd = fd }) (length pkt) w)
      ]
