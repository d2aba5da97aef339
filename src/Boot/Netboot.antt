-- ===== src/Boot/Netboot.antt =====
-- `query_reply`, `pkt_rx_udp`, `eth_rx`, `eth_handle_rx` and the loop of `netboot` of
-- boot/netboot.c. `msg` is where a message starts in the receive buffer.
pub mod Reply
pub mod Commands
pub mod Safety
pub mod Loop
use os_workshop.Base.{
  ℕ, ◌+◌, ◌-◌, ◌*◌, ◌^◌, ◌==◌, ltb, if◌then◌else◌, Bool, true, false, not, ◌||◌, List, [], ◌∷◌,
  ◌++◌, Memory, of_list, memcpy, memeq, rd32, length, take, bit_and,
}
use os_workshop.Net.Wire.{net_init}
use os_workshop.Net.Host.{Flow, returns, waits, leaves}
use os_workshop.Net.Tx.{net_tx_udp_reply}
use os_workshop.Net.Rx.{net_rx_eth}
use os_workshop.Boot.Message.{
  nb_port_query, nb_port_ctrl, nb_magic, nb_cmd_query, nb_cmd_write, nb_cmd_exec, nb_cmd_status,
  nb_ok, nb_err_badcmd, nb_msg_min, nb_msg_max, nb_data_max, msg_magic, msg_cmd, msg_arg,
  set_cmd_arg,
}
use os_workshop.Boot.Board.{
  Board, emit, putc, eth_wr, execution_starts, write_mstatus, wr_ev_pending, eth_init, boot_host,
  ethmac_slot_size,
}

infixl 5 ◌>>=◌
abbrev pub ◌>>=◌ : Flow Board → (Board → Flow Board) → Flow Board
returns b >>= k = k b
waits >>= k = waits
leaves entry b >>= k = leaves entry b

-- "device"
abbrev pub nodename : List ℕ
nodename = 0x64 ∷ 0x65 ∷ 0x76 ∷ 0x69 ∷ 0x63 ∷ 0x65 ∷ []

-- "name=device"
abbrev pub name_line : List ℕ
name_line = (0x6e ∷ 0x61 ∷ 0x6d ∷ 0x65 ∷ 0x3d ∷ []) ++ nodename

-- `snprintf` stores at most `size - 1` characters and a 0, and returns the full length.
unfoldable pub snprintf : Memory → (at size : ℕ) → List ℕ → Memory
snprintf m at size line =
    let stored = take (size - 1) line ++ (0 ∷ []) in memcpy m at (of_list stored) 0 (length stored)

-- A reply from the message's own buffer, with a new command and argument.
unfoldable pub send_status : (msg len arg : ℕ) → Board → Flow Board
send_status msg len arg b =
    let m = set_cmd_arg b.rxbuf msg nb_cmd_status arg in
    net_tx_udp_reply boot_host msg m msg len nb_port_ctrl (record b { rxbuf = m })

unfoldable pub query_reply : ℕ → Board → Flow Board
unfolding snprintf send_status
query_reply msg b =
    let named = record b { rxbuf = snprintf b.rxbuf (msg + 16) nb_data_max name_line } in
    send_status msg (nb_msg_min + length name_line + 1) nb_ok named

unfoldable pub handle_write : (msg len : ℕ) → Board → Flow Board
unfolding send_status
handle_write msg len b =
    let b = emit (putc b'.') b in
    let to = msg_arg b.rxbuf msg in
    let stored = record b { ram = memcpy b.ram to b.rxbuf (msg + 16) (len - nb_msg_min) } in
    send_status msg nb_msg_min nb_ok stored

-- PRIV_S << MSTATUS_MPP_SHIFT
abbrev pub mstatus_mpp_s : ℕ
mstatus_mpp_s = 1 * 2 ^ 11

unfoldable pub handle_exec : ℕ → Board → Flow Board
unfolding send_status
handle_exec msg b =
    let entry = msg_arg b.rxbuf msg in
    send_status msg nb_msg_min nb_ok (emit (putc b'!') b) >>= λ b'.
    leaves entry (emit (execution_starts entry) (emit (write_mstatus mstatus_mpp_s) b'))

unfoldable pub handle_ctrl : (msg len : ℕ) → Board → Flow Board
unfolding query_reply handle_write handle_exec
handle_ctrl msg len b =
    let cmd = msg_cmd b.rxbuf msg in
    if cmd == nb_cmd_query
    then query_reply msg (emit (putc b'Q') b)
    else if cmd == nb_cmd_write
    then handle_write msg len b
    else if cmd == nb_cmd_exec
    then handle_exec msg b
    else send_status msg nb_msg_min nb_err_badcmd (emit (putc b'E') b)

unfoldable pub pkt_rx_udp : (msg len port : ℕ) → Bool → Board → Flow Board
unfolding handle_ctrl
pkt_rx_udp msg len port mcast b =
    let m = b.rxbuf in
    if ltb len nb_msg_min || ltb nb_msg_max len || not (msg_magic m msg == nb_magic)
    then returns b
    else if port == nb_port_query
    then (if not (msg_cmd m msg == nb_cmd_query)
          || not (len == length nodename + nb_msg_min)
          || not (memeq m (msg + 16) (of_list nodename) 0 (length nodename))
        then returns b
        else query_reply msg b)
    else if not (port == nb_port_ctrl)
    then returns b
    else handle_ctrl msg len b

-- `rxb` is the received frame where it lies in the Ethernet SRAM.
unfoldable pub eth_rx : (rxb rxlen : ℕ) → Board → Flow Board
unfolding pkt_rx_udp
eth_rx rxb rxlen b =
    if ltb 1534 rxlen
    then returns b
    else net_rx_eth boot_host pkt_rx_udp 0 (rxlen + 2)
        (record b { rxbuf = memcpy b.rxbuf 2 b.sram rxb rxlen })

-- What the receiver's registers and its SRAM hold when the loop looks at them.
pub record Poll : Type 0 where
  pub pending : ℕ
  pub slot : ℕ
  pub len : ℕ
  pub sram : Memory

unfoldable pub eth_handle_rx : Poll → Board → Flow Board
unfolding eth_rx
eth_handle_rx p b =
    let seen = record b { sram = p.sram } in
    if bit_and p.pending 1 == 0
    then returns seen
    else eth_rx (ethmac_slot_size * p.slot) p.len seen >>= λ b'.
        returns (emit (eth_wr wr_ev_pending 1) b')

-- The first rounds of the endless loop.
unfoldable pub poll_loop : List Poll → Board → Flow Board
unfolding eth_handle_rx
poll_loop [] b = returns b
poll_loop (p ∷ ps) b = eth_handle_rx p b >>= poll_loop ps

-- 42:42:10:20:30:40
abbrev pub boot_mac : Memory
boot_mac = of_list (0x42 ∷ 0x42 ∷ 0x10 ∷ 0x20 ∷ 0x30 ∷ 0x40 ∷ [])

unfoldable pub netboot : List Poll → Board → Flow Board
unfolding poll_loop
netboot ps b = poll_loop ps (eth_init (record b { ifc = net_init boot_mac b.ifc }))
