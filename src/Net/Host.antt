-- ===== src/Net/Host.antt =====
-- What the stack uses of the program around it: the receive buffer, its own statics, the console
-- and the driver's `eth_tx`. boot/netboot.c and example/ex05-ethernet.c are two such programs.
use os_workshop.Base.{ℕ, ◌≡◌, Bool, List, Memory}
use os_workshop.Net.Wire.{Ifc}

-- What the stack prints about a packet that it drops.
pub data Message : Type 0 where
  udp_runt icmp_runt eth_runt : Message
  udp_badlen : (len dlen : ℕ) → Message
  icmp_unknown : (type code : ℕ) → Bool → Message
  ip6_multicast ip6_unicast : Message
  ip6_header : ℕ → Message
  eth_unknown : List ℕ → Message

-- How a call ends: it returns, it waits for ever, or it gives the machine to a loaded program.
pub data Flow (W : Type 0) : Type 0 where
  returns : W → Flow W
  waits : Flow W
  leaves : (entry : ℕ) → W → Flow W

pub record Host (W : Type 0) : Type 0 where
  -- The memory that the `data` pointers point into.
  pub rx : W → Memory
  pub set_rx : Memory → W → W
  -- What a new stack buffer holds.
  pub stack : W → Memory
  pub ifc : W → Ifc
  pub xprintf : Message → W → W
  pub eth_tx : List ℕ → W → Flow W
  pub rx-set_rx : (m : Memory) (w : W) → rx (set_rx m w) ≡ m
  pub ifc-set_rx : (m : Memory) (w : W) → ifc (set_rx m w) ≡ ifc w
  pub stack-set_rx : (m : Memory) (w : W) → stack (set_rx m w) ≡ stack w
