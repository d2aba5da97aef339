-- ===== src/Boot/Netboot/Reply.antt =====
-- The reply that every command of boot/netboot.c ends with.
use os_workshop.Base.{
  ℕ, ◌+◌, ◌-◌, ◌^◌, ◌≤◌, ◌<◌, ◌≡◌, ap, ap₂, ◌∙◌, List, Memory, IsBytes, wr32, slice,
  slice-eq_of_SameBytes, wr32-IsBytes, arith,
}
use mathlib.Core.Path.{subst}
use os_workshop.Net.Wire.{Ifc}
use os_workshop.Net.Layout.{headers, reply_heads, udp_datagram}
use os_workshop.Net.Replies.{le16, net_tx_udp_reply_sends}
use os_workshop.Net.PacketBytes.{HoldsBytes}
use os_workshop.Net.Checksum.Complement.{Verifies}
use os_workshop.Boot.Message.{nb_cmd_status, nb_port_ctrl, set_cmd_arg}
use os_workshop.Boot.Board.{Board, boot_host, eth_tx}
use os_workshop.Boot.Netboot.{send_status}

-- Everything that a reply is made of is bytes.
pub record BoardBytes (b : Board) : Type 0 where
  pub ifc_bytes : HoldsBytes b.ifc
  pub stack_bytes : IsBytes b.stack
  pub rx_bytes : IsBytes b.rxbuf

-- The frame that carries a payload to the sender of the message at `msg`, which came behind 64
-- bytes of headers.
abbrev pub reply_datagram : Board → (msg check : ℕ) → List ℕ → (len : ℕ) → List ℕ
reply_datagram b msg check payload len =
    udp_datagram (reply_heads b.ifc b.rxbuf (msg - 64) (len + 8) 17) nb_port_ctrl
      (slice b.rxbuf (msg - 64 + 56) 2) (le16 check) payload (len + 8)

-- A new command and argument leave the headers in front of the message alone.
same_headers :
    (i : Ifc) (m : Memory) (msg cmd arg len type : ℕ)
    → 64 ≤ msg
    → reply_heads i (set_cmd_arg m msg cmd arg) (msg - 64) len type
      ≡ reply_heads i m (msg - 64) len type
same_headers i m msg cmd arg len type behind =
    let m' = set_cmd_arg m msg cmd arg in
    ap₂ (λ a b. headers a (slice i.ifc_mac 0 6) (slice i.ifc_ll_ip6 0 16) b len type)
      (slice-eq_of_SameBytes m' m (msg - 64 + 8) (msg - 64 + 8) 6 (λ j lt. ground arith))
      (slice-eq_of_SameBytes m' m (msg - 64 + 24) (msg - 64 + 24) 16 (λ j lt. ground arith))

same_port :
    (m : Memory) (msg cmd arg : ℕ)
    → 64 ≤ msg
    → slice (set_cmd_arg m msg cmd arg) (msg - 64 + 56) 2 ≡ slice m (msg - 64 + 56) 2
same_port m msg cmd arg behind =
    slice-eq_of_SameBytes (set_cmd_arg m msg cmd arg) m (msg - 64 + 56) (msg - 64 + 56) 2
      (λ j lt. ground arith)

pub send_status_sends :
    (msg len arg : ℕ) (b : Board)
    → BoardBytes b
    → 64 ≤ msg
    → len ≤ 1472
    → let m = set_cmd_arg b.rxbuf msg nb_cmd_status arg in
      (check : ℕ) × (0 < check)
      × (check < 2 ^ 16)
      × (let frame = reply_datagram b msg check (slice m msg len) len in
          (send_status msg len arg b ≡ eth_tx frame (record b { rxbuf = m })) × Verifies frame)
unfolding send_status
send_status_sends msg len arg b bytes behind fits =
    let m = set_cmd_arg b.rxbuf msg nb_cmd_status arg in
    let b' : Board = record b { rxbuf = m } in
    let hm =
      wr32-IsBytes (wr32 b.rxbuf (msg + 4) nb_cmd_status) (msg + 12) arg
        (wr32-IsBytes b.rxbuf (msg + 4) nb_cmd_status bytes.rx_bytes) in
    let sent =
      net_tx_udp_reply_sends boot_host b' msg m msg len bytes.ifc_bytes bytes.stack_bytes hm hm
        nb_port_ctrl fits (omega arith) in
    let e =
      ap₂
        (λ heads port.
          udp_datagram heads nb_port_ctrl port (le16 sent.0) (slice m msg len) (len + 8))
        (same_headers b.ifc b.rxbuf msg nb_cmd_status arg (len + 8) 17 behind)
        (same_port b.rxbuf msg nb_cmd_status arg behind) in
    (
      sent.0,
      sent.1,
      sent.2,
      (sent.3.0 ∙ ap (λ frame. eth_tx frame b') e, subst Verifies e sent.3.1),
    )
