-- ===== src/Bmc/Frame.antt =====
-- A packet in its buffer: the handlers of examples/bmc-cache/bmc_kern.c move its beginning over
-- the headers and back.
use dram_pvt_mk.Base.{ℕ, ◌+◌, ◌≡◌, ◌++◌, List, Option, some, drop, take}
use dram_pvt_mk.Base.Bytes.{Packet}
use dram_pvt_mk.Bmc.{Maps}

-- `data` is `head` bytes into the buffer.
pub record Frame : Type 0 where
  pub buffer : List ℕ
  pub head : ℕ

abbrev pub packet_of : Frame → Packet
packet_of f = drop f.head f.buffer

-- The packet with its bytes changed.
abbrev pub with_packet : Frame → Packet → Frame
with_packet f p = record f { buffer = take f.head f.buffer ++ p }

-- The second argument of `bpf_xdp_adjust_head`.
pub data Delta : Type 0 where
  forward : ℕ → Delta
  backward : ℕ → Delta

pub record FrameRun : Type 0 where
  pub maps : Maps
  pub frame : Frame
  pub verdict : ℕ

-- What is relied on of `bpf_xdp_adjust_head`: when it succeeds, `data` has moved by the argument
-- and the bytes of the buffer are as before.
pub record Adjusts (adjust_head : Frame → Delta → Option Frame) : Type 0 where
  pub moves_forward :
      (f g : Frame) (n : ℕ)
      → adjust_head f (forward n) ≡ some g
      → (g.buffer ≡ f.buffer) × (g.head ≡ f.head + n)
  pub moves_backward :
      (f g : Frame) (n : ℕ)
      → adjust_head f (backward n) ≡ some g
      → (g.buffer ≡ f.buffer) × (g.head + n ≡ f.head)
