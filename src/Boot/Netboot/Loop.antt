-- ===== src/Boot/Netboot/Loop.antt =====
-- Two kept predicates, and the loop.
use os_workshop.Base.{
  ℕ, ◌+◌, ◌≤◌, ◌<◌, ◌≡◌, refl, ap, ◌∙◌, ◌⊎◌, List, [], ◌∷◌, Memory, IsBytes, memcpy, arith, ◌*◌,
}
use os_workshop.Net.Host.{Flow, returns}
use os_workshop.Net.Rx.Invariant.{After, returned, waiting, left, if-After}
use os_workshop.Boot.Board.{Board, emit, start_tx, eth_wr, wr_ev_pending, ethmac_slot_size}
use os_workshop.Boot.Board.Driver.{IsValid, IsValid-other, Kept, start_tx-IsValid}
use os_workshop.Boot.Netboot.{◌>>=◌, eth_rx, Poll, eth_handle_rx, poll_loop}
use os_workshop.Boot.Netboot.Safety.{eth_rx-After}

-- `ram` is as it was outside some 1024 bytes.
abbrev pub OneWindow : Memory → Board → Type 0
OneWindow ram b = (to : ℕ) × ((a : ℕ) → (a < to) ⊎ (to + 1024 ≤ a) → b.ram a ≡ ram a)

kept_ram : (m : Memory) → Kept (λ b. b.ram ≡ m)
unfolding start_tx
kept_ram m = record {
  sends = λ frame ready b h. h;
  prints = λ e b h. h;
  fills = λ n b keeps x y h. h;
}

kept_window : (m : Memory) → Kept (OneWindow m)
unfolding start_tx
kept_window m = record {
  sends = λ frame ready b h. h;
  prints = λ e b h. h;
  fills = λ n b keeps x y h. h;
}

kept-IsValid : Kept IsValid
kept-IsValid = record {
  sends = start_tx-IsValid;
  prints = λ e b v. IsValid-other b.ram b.sram (e ∷ b.events) b v;
  fills = λ m b keeps x y v. record {
    ifc_bytes = v.ifc_bytes;
    mac_bytes = v.mac_bytes;
    ns_bytes = v.ns_bytes;
    stack_bytes = v.stack_bytes;
    rx_bytes = keeps v.rx_bytes;
    pad_first = x ∙ v.pad_first;
    pad_second = y ∙ v.pad_second;
    slot = v.slot;
  };
}

-- Whatever a received frame holds, it changes memory in one window of 1024 bytes at most.
pub eth_rx_window :
    (rxb rxlen : ℕ) (b : Board) → IsBytes b.sram → After (OneWindow b.ram) (eth_rx rxb rxlen b)
eth_rx_window rxb rxlen b hs =
    eth_rx-After (λ b'. b'.ram ≡ b.ram) (OneWindow b.ram) (kept_ram b.ram) (kept_window b.ram)
      (λ b' e. (0, λ a out. ap (λ (m : Memory). m a) e))
      (λ to msg n b' small e. (to, λ a out. ground (arith, ap (λ (m : Memory). m a) e))) rxb rxlen b
      hs refl

-- The frames that the receiver hands over are bytes.
abbrev pub PollBytes : List Poll → Type 0
PollBytes [] = Unit
PollBytes (p ∷ ps) = IsBytes p.sram × PollBytes ps

handle_rx-IsValid :
    (p : Poll) (b : Board) → IsBytes p.sram → IsValid b → After IsValid (eth_handle_rx p b)
unfolding eth_handle_rx
handle_rx-IsValid p b hs v =
    let seen : Board = record b { sram = p.sram } in
    let v' : IsValid seen = IsValid-other b.ram p.sram b.events b v in
    if-After IsValid _ (returned v') (
      go (
        eth_rx-After IsValid IsValid kept-IsValid kept-IsValid (λ b' w. w)
          (λ to msg n b' small w.
            IsValid-other (memcpy b'.ram to b'.rxbuf msg n) b'.sram b'.events b' w)
          (ethmac_slot_size * p.slot) p.len seen hs v'))
  where
    go :
        {flow : Flow Board}
        → After IsValid flow
        → After IsValid (flow >>= λ b'. returns (emit (eth_wr wr_ev_pending 1) b'))
    go (returned {w} v') =
        returned (IsValid-other w.ram w.sram (eth_wr wr_ev_pending 1 ∷ w.events) w v')
    go waiting = waiting
    go (left v') = left v'

-- Every state in which the loop of the bootloader looks at the receiver is valid.
pub poll_loop-IsValid :
    (ps : List Poll) (b : Board) → PollBytes ps → IsValid b → After IsValid (poll_loop ps b)
unfolding poll_loop
poll_loop-IsValid [] b hs v = returned v
poll_loop-IsValid (p ∷ ps) b hs v = go (poll_loop-IsValid ps) (handle_rx-IsValid p b hs.0 v)
  where
    go :
        ((b' : Board) → PollBytes ps → IsValid b' → After IsValid (poll_loop ps b'))
        → {flow : Flow Board} → After IsValid flow
        → After IsValid (flow >>= poll_loop ps)
    go rest (returned v') = rest _ hs.1 v'
    go rest waiting = waiting
    go rest (left v') = left v'
