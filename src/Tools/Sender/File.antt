-- ===== src/Tools/Sender/File.antt =====
-- When `send_file` of tools/netboot.c returns 0.
use os_workshop.Base.{
  ℕ, ◌+◌, ◌-◌, ◌≤◌, ◌<◌, ◌≡◌, Bool, Bool-cases, true, false, inl, inr, leb, ltb, not, ◌&&◌, List,
  [], ◌∷◌, ◌++◌, Memory, of_list, wr32, slice, le32, slice-wr32_self, slice-wr32_ne, if◌then◌else◌,
  slice-add, slice-eq_of_SameBytes, slice-of_list, memcpy, length, u32, arith, refl, ap, ap₂, ◌∙◌,
  ◌⊎◌, sym,
}
use mathlib.Core.Bool.{false≢true}
use mathlib.Core.Path.{subst}
use os_workshop.Boot.Message.{nb_magic, nb_cmd_write, nb_msg_min}
use os_workshop.Tools.Sender.{
  Answer, Entry, sent, printed, Sender, send_msg, send_chunks, send_file,
}
use os_workshop.Tools.Sender.Tries.{IsOk, send_msg-Accepted, wr32_ne}

-- A WRITE message of the boot protocol.
abbrev pub write_message : (seq addr : ℕ) → List ℕ → List ℕ
write_message seq addr c = le32 nb_magic ++ le32 nb_cmd_write ++ le32 seq ++ le32 addr ++ c

-- The messages `chunks` from `addr` on were each accepted, in their order, and logged behind `log`.
abbrev pub Delivered :
    {W : Type 0} → (W → List ℕ → W × Answer) → ℕ → List (List ℕ) → (log log' : List Entry) → Type 0
Delivered peer addr [] log log' = log' ≡ log
Delivered {W} peer addr (c ∷ cs) log log' =
    (seq : ℕ) × (w : W) × (before : List Entry) × IsOk seq (peer w (write_message seq addr c)).1
    × Delivered peer (u32 (addr + length c)) cs
        (printed b'.' ∷ sent (write_message seq addr c) ∷ before ++ log) log'

-- The first words of the message of `send_file`.
pub record HasHeads (m : Memory) : Type 0 where
  pub magic : slice m 0 4 ≡ le32 nb_magic
  pub cmd : slice m 4 4 ≡ le32 nb_cmd_write

abbrev pub loaded : Memory → ℕ → List ℕ → Memory
loaded m addr c = wr32 (memcpy m 16 (of_list c) 0 (length c)) 12 addr

loaded-low : (m : Memory) (addr : ℕ) (c : List ℕ) (j : ℕ) → j < 8 → loaded m addr c j ≡ m j
loaded-low m addr c j lt = ground arith

loaded-data :
    (m : Memory) (addr : ℕ) (c : List ℕ) (i : ℕ)
    → i < length c
    → loaded m addr c (16 + i) ≡ of_list c i
loaded-data m addr c i lt =
    wr32_ne (memcpy m 16 (of_list c) 0 (length c)) 12 addr (16 + i) (inr (omega arith))
    ∙ memcpy_at m (of_list c) (length c) i lt
  where
    memcpy_at : (m s : Memory) (n i : ℕ) → i < n → memcpy m 16 s 0 n (16 + i) ≡ s i
    memcpy_at m s n i lt =
        let at : 0 + (16 + i - 16) ≡ i = omega arith in
        let inside : (leb 16 (16 + i) && ltb (16 + i) (16 + n)) ≡ true = ground arith in
        rw (inside, at) refl

-- A message `m'` with these parts is the WRITE message.
module _ (m m' : Memory) (seq addr : ℕ) (c : List ℕ) (heads : HasHeads m)
    (kept : (j : ℕ) → (j < 8) ⊎ (12 ≤ j) → m' j ≡ loaded m addr c j)
    (numbered : slice m' 8 4 ≡ le32 seq) where
  low : (j : ℕ) → j < 8 → m' j ≡ m j
  low j lt = kept j (inl lt) ∙ loaded-low m addr c j lt

  pub sent-HasHeads : HasHeads m'
  sent-HasHeads = record {
    magic = slice-eq_of_SameBytes m' m 0 0 4 (λ i lt. low (0 + i) (omega arith)) ∙ heads.magic;
    cmd = slice-eq_of_SameBytes m' m 4 4 4 (λ i lt. low (4 + i) (omega arith)) ∙ heads.cmd;
  }

  address : slice m' 12 4 ≡ le32 addr
  address =
      slice-eq_of_SameBytes m' (loaded m addr c) 12 12 4 (λ i lt. kept (12 + i) (inr (omega arith)))
      ∙ slice-wr32_self (memcpy m 16 (of_list c) 0 (length c)) 12 addr

  data_ : slice m' 16 (length c) ≡ c
  data_ = slice-of_list c m' 16 (λ i lt.
      kept (16 + i) (inr (omega arith)) ∙ loaded-data m addr c i lt ∙ ap (of_list c) (from_zero i))
    where
      from_zero : (i : ℕ) → i ≡ 0 + i
      from_zero i = omega arith

  pub sent-write_message : slice m' 0 (length c + 16) ≡ write_message seq addr c
  sent-write_message =
      ap (slice m' 0) sizes
      ∙ slice-add m' 0 4 (4 + (4 + (4 + length c))) 4 refl
      ∙ ap₂ ◌++◌ sent-HasHeads.magic (
          slice-add m' 4 4 (4 + (4 + length c)) 8 refl
          ∙ ap₂ ◌++◌ sent-HasHeads.cmd (
              slice-add m' 8 4 (4 + length c) 12 refl
              ∙ ap₂ ◌++◌ numbered (slice-add m' 12 4 (length c) 16 refl ∙ ap₂ ◌++◌ address data_)))
    where
      sizes : length c + 16 ≡ 4 + (4 + (4 + (4 + length c)))
      sizes = omega arith

failed_false : (failed : Bool) → not failed ≡ true → failed ≡ false
failed_false false e = refl
failed_false true e = absurd (false≢true e)

module _ {W : Type 0} (peer : W → List ℕ → W × Answer) where
  send_chunks-whole :
      (addr : ℕ) (cs : List (List ℕ)) (failed : Bool) (st : Sender W)
      → (send_chunks peer addr cs failed st).0 ≡ true
      → failed ≡ false
  unfolding send_chunks
  send_chunks-whole addr [] failed st e = failed_false failed e
  send_chunks-whole addr (c ∷ cs) failed st e =
      let r = send_msg peer (length c + nb_msg_min) (record st { msg = loaded st.msg addr c }) in
      let rest = send_chunks peer (u32 (addr + length c)) cs failed r.1 in
      let later = send_chunks-whole (u32 (addr + length c)) cs failed r.1 in
      elim (Bool-cases r.0) [
        | inl ok ↦
            let chosen : (if r.0 then rest else (false, r.1)) ≡ rest =
              ap (λ b. if b then rest else (false, r.1)) ok in
            later (sym (ap (λ (p : Bool × Sender W). p.0) chosen) ∙ e)
        | inr bad ↦
            absurd (false≢true (sym (ap (λ b. (if b then rest else (false, r.1)).0) bad) ∙ e))
      ]

  -- If `send_file` returns 0, no read failed.
  pub send_file-whole :
      (addr : ℕ) (chunks : List (List ℕ)) (failed : Bool) (msg : Memory) (st : Sender W)
      → (send_file peer addr chunks failed msg st).0 ≡ true
      → failed ≡ false
  unfolding send_file
  send_file-whole addr chunks failed msg st e =
      send_chunks-whole addr chunks failed
        (record st { msg = wr32 (wr32 msg 0 nb_magic) 4 nb_cmd_write }) e

  send_chunks-Delivered :
      (addr : ℕ) (cs : List (List ℕ)) (failed : Bool) (st : Sender W)
      → HasHeads st.msg
      → (send_chunks peer addr cs failed st).0 ≡ true
      → Delivered peer addr cs st.log (send_chunks peer addr cs failed st).1.log
  unfolding send_chunks
  send_chunks-Delivered addr [] failed st heads e = refl
  send_chunks-Delivered addr (c ∷ cs) failed st heads e =
      let st1 : Sender W = record st { msg = loaded st.msg addr c } in
      let r = send_msg peer (length c + nb_msg_min) st1 in
      let rest = send_chunks peer (u32 (addr + length c)) cs failed r.1 in
      elim (Bool-cases r.0) [
        | inl ok ↦
            let chosen : (if r.0 then rest else (false, r.1)) ≡ rest =
              ap (λ b. if b then rest else (false, r.1)) ok in
            let a = send_msg-Accepted peer (length c + nb_msg_min) st1 ok in
            let heads' = sent-HasHeads st.msg r.1.msg r.1.seq addr c heads a.kept a.numbered in
            let message =
              sent-write_message st.msg r.1.msg r.1.seq addr c heads a.kept a.numbered in
            let log =
              a.logged ∙ ap (λ bytes. printed b'.' ∷ sent bytes ∷ a.before ++ st.log) message in
            let done : rest.0 ≡ true = sym (ap (λ (p : Bool × Sender W). p.0) chosen) ∙ e in
            let later = send_chunks-Delivered (u32 (addr + length c)) cs failed r.1 heads' done in
            (
              r.1.seq,
              a.answered.0,
              a.before,
              subst (λ bytes. IsOk r.1.seq (peer a.answered.0 bytes).1) message a.answered.2,
              subst
                  (λ (p : Bool × Sender W).
                    Delivered peer (u32 (addr + length c)) cs
                      (printed b'.' ∷ sent (write_message r.1.seq addr c) ∷ a.before ++ st.log)
                      p.1.log)
                  (sym chosen)
                  (subst (λ es. Delivered peer (u32 (addr + length c)) cs es rest.1.log) log later),
            )
        | inr bad ↦
            absurd (false≢true (sym (ap (λ b. (if b then rest else (false, r.1)).0) bad) ∙ e))
      ]

  -- If `send_file` returns 0, what it read was sent in WRITE messages at the right addresses, in
  -- order, and each was accepted under its number before the next.
  pub send_file-Delivered :
      (addr : ℕ) (chunks : List (List ℕ)) (failed : Bool) (msg : Memory) (st : Sender W)
      → (send_file peer addr chunks failed msg st).0 ≡ true
      → Delivered peer addr chunks st.log (send_file peer addr chunks failed msg st).1.log
  unfolding send_file
  send_file-Delivered addr chunks failed msg st e =
      send_chunks-Delivered addr chunks failed
        (record st { msg = wr32 (wr32 msg 0 nb_magic) 4 nb_cmd_write })
        (record {
          magic =
              slice-wr32_ne (wr32 msg 0 nb_magic) 4 nb_cmd_write 0 4 (inr (omega arith))
              ∙ slice-wr32_self msg 0 nb_magic;
          cmd = slice-wr32_self (wr32 msg 0 nb_magic) 4 nb_cmd_write;
        })
        e
