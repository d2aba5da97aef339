-- ===== src/Boot/Board/Transmit.antt =====
-- `eth_tx` of boot/netboot.c on each of its branches.
use os_workshop.Base.{
  ℕ, ◌+◌, ◌*◌, ◌≤◌, ◌<◌, ◌≡◌, ◌≢◌, refl, ◌⊎◌, List, [], ◌∷◌, ◌++◌, none, some, arith, slice,
  slice-of_list, length, ltb-false, ==_false, bit_xor, zero, suc,
}
use os_workshop.Net.Host.{returns, waits}
use os_workshop.Boot.Board.{Board, eth_tx, start_tx, wait_ready, eth_wr, rd_slot, rd_len, rd_start}

-- RD_READY reads other values than 1.
abbrev pub NotReady : List ℕ → Type 0
NotReady [] = Unit
NotReady (x ∷ xs) = (x ≢ 1) × NotReady xs

wait_ready-ready : (xs ys : List ℕ) → NotReady xs → wait_ready (xs ++ 1 ∷ ys) ≡ some ys
unfolding wait_ready
wait_ready-ready [] ys h = refl
wait_ready-ready (x ∷ xs) ys h = rw (==_false x 1 h.0) (wait_ready-ready xs ys h.1)

wait_ready-none : (xs : List ℕ) → NotReady xs → wait_ready xs ≡ none
unfolding wait_ready
wait_ready-none [] h = refl
wait_ready-none (x ∷ xs) h = rw (==_false x 1 h.0) (wait_ready-none xs h.1)

-- A frame of at most 1534 bytes is put at the start of the current slot, no other byte of the Ethernet
-- memory changes, and it is started, as soon as RD_READY reads 1; the next one will use the other
-- slot, and the ram is as it was.
pub eth_tx_sends :
    (frame before after : List ℕ) (b : Board)
    → length frame ≤ 1534
    → b.txslot < 2
    → NotReady before
    → b.ready ≡ before ++ 1 ∷ after
    → (b' : Board) × (eth_tx frame b ≡ returns b')
      × (slice b'.sram (0x1000 + 0x800 * b.txslot) (length frame) ≡ frame)
      × ((a : ℕ)
          → (a < 0x1000 + 0x800 * b.txslot) ⊎ (0x1000 + 0x800 * b.txslot + length frame ≤ a)
          → b'.sram a ≡ b.sram a)
      × (b'.events
          ≡ eth_wr rd_start 1 ∷ eth_wr rd_len (length frame) ∷ eth_wr rd_slot b.txslot ∷ b.events)
      × (b'.txslot + b.txslot ≡ 1)
      × (b'.ram ≡ b.ram)
unfolding eth_tx
eth_tx_sends frame before after b short slot busy e = (
  start_tx frame after b,
  rw (ltb-false 1534 (length frame) short, e, wait_ready-ready before after busy),
  unfold start_tx in
      slice-of_list frame (start_tx frame after b).sram (0x1000 + 0x800 * b.txslot)
        (λ j lt. ground arith),
  unfold start_tx in (λ a out. ground arith),
  unfold start_tx in refl,
  unfold start_tx in other b.txslot slot,
  unfold start_tx in refl,
)
  where
    other : (s : ℕ) → s < 2 → bit_xor s 1 + s ≡ 1
    other zero h = refl
    other (suc zero) h = refl
    other (suc (suc s)) h = absurd (omega arith)

-- While RD_READY never reads 1, it waits; a longer frame is dropped at once.
eth_tx_waits :
    (frame : List ℕ) (b : Board)
    → NotReady b.ready
    → ((length frame ≤ 1534) × (eth_tx frame b ≡ waits))
      ⊎ ((1534 < length frame) × (eth_tx frame b ≡ returns b))
unfolding eth_tx
eth_tx_waits frame b busy = ground (arith, wait_ready-none b.ready busy)
