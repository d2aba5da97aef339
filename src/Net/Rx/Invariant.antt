-- ===== src/Net/Rx/Invariant.antt =====
-- What every step that the receiving half takes preserves holds in the end.
use os_workshop.Base.{ℕ, ◌+◌, ◌≤◌, Bool, true, false, if◌then◌else◌, Memory, wr8, wr16, List, arith}
use os_workshop.Net.Wire.{icmp_echo_reply}
use os_workshop.Net.Host.{Host, Flow, returns, waits, leaves, Message}
use os_workshop.Net.Tx.{net_tx_ip6_reply}
use os_workshop.Net.Rx.{net_rx_icmp6, net_rx_udp6, ip6_payload, net_rx_ip6, net_rx_eth}

-- `P` holds wherever the flow ends.
pub data After {W : Type 0} (P : W → Type 0) : Flow W → Type 0 where
  returned : {w : W} → P w → After P (returns w)
  waiting : After P waits
  left : {entry : ℕ} {w : W} → P w → After P (leaves entry w)

le_far : (n : ℕ) → 40 ≤ n + 40
le_far n = omega arith

le_behind : (n : ℕ) → 48 ≤ n + 40 + 8
le_behind n = omega arith

pub if-After :
    {W : Type 0} (P : W → Type 0) (c : Bool) {x y : Flow W}
    → After P x
    → After P y
    → After P (if c then x else y)
if-After P true px py = px
if-After P false px py = py

pub After-mono :
    {W : Type 0} (P Q : W → Type 0) {flow : Flow W}
    → ((w : W) → P w → Q w)
    → After P flow
    → After Q flow
After-mono P Q weaken (returned p) = returned (weaken _ p)
After-mono P Q weaken waiting = waiting
After-mono P Q weaken (left p) = left (weaken _ p)

module _ {W : Type 0} (h : Host W) (d : (base len port : ℕ) → Bool → W → Flow W) (P Q : W → Type 0)
    (ends : (w : W) → P w → Q w) (prints : (m : Message) (w : W) → P w → P (h.xprintf m w))
    (marks : (at : ℕ) (w : W)
      → 40 ≤ at
      → P w
      → P (h.set_rx (wr16 (wr8 (h.rx w) at icmp_echo_reply) (at + 2) 0) w))
    (sends : (frame : List ℕ) (w : W) → P w → After Q (h.eth_tx frame w))
    (calls : (base len port : ℕ) (mcast : Bool) (w : W)
      → 48 ≤ base
      → P w
      → After Q (d base len port mcast w)) where
  tx-After :
      (replyto : ℕ) (src : Memory) (at len type chk_off : ℕ) (w : W)
      → P w
      → After Q (net_tx_ip6_reply h replyto src at len type chk_off w)
  unfolding net_tx_ip6_reply
  tx-After replyto src at len type chk_off w p = if-After Q _ (returned (ends w p)) (sends _ w p)

  icmp6-After :
      (base dlen : ℕ) (mcast : Bool) (w : W)
      → P w
      → After Q (net_rx_icmp6 h (base + 40) dlen mcast w)
  unfolding net_rx_icmp6
  icmp6-After base dlen mcast w p =
      search (if-After, returned, ends, prints, marks, tx-After, le_far) depth 8

  udp6-After :
      (base dlen : ℕ) (mcast : Bool) (w : W)
      → P w
      → After Q (net_rx_udp6 h d (base + 40) dlen mcast w)
  unfolding net_rx_udp6
  udp6-After base dlen mcast w p =
      search (if-After, returned, ends, prints, calls, le_behind) depth 8

  payload-After :
      (base len : ℕ) (mcast : Bool) (w : W) → P w → After Q (ip6_payload h d base len mcast w)
  unfolding ip6_payload
  payload-After base len mcast w p =
      search (if-After, returned, ends, prints, icmp6-After, udp6-After) depth 8

  ip6-After :
      (base len : ℕ) (mcast : Bool) (w : W) → P w → After Q (net_rx_ip6 h d base len mcast w)
  unfolding net_rx_ip6
  ip6-After base len mcast w p = search (if-After, returned, ends, prints, payload-After) depth 8

  -- `P` holds up to the last step of `net_rx_eth`, and `Q` behind it.
  pub eth-After : (base len : ℕ) (w : W) → P w → After Q (net_rx_eth h d base len w)
  unfolding net_rx_eth
  eth-After base len w p = search (if-After, returned, ends, prints, ip6-After) depth 9
