-- ===== src/Tools/Link/Loaded.antt =====
-- `send_file` of tools/netboot.c over Tools.Link: what the target's memory holds when it returns 0.
use os_workshop.Base.{
  ℕ, ◌+◌, ◌*◌, ◌^◌, ◌≤◌, ◌<◌, ◌≡◌, ◌⊎◌, inl, inr, Bool, Bool-cases, true, false, if◌then◌else◌,
  List, [], ◌∷◌, Memory, IsBytes, AllBytes, wr32, slice, length, length-append, u32,
  slice-wr32_self, slice-wr32_ne, arith, ap, ◌∙◌, sym, refl,
}
use mathlib.Core.Bool.{false≢true}
use mathlib.Core.Path.{subst}
use os_workshop.Boot.Message.{nb_magic, nb_cmd_write, nb_msg_min}
use os_workshop.Boot.Board.{Board}
use os_workshop.Boot.Netboot.Reply.{BoardBytes}
use os_workshop.Tools.Sender.{Sender, send_msg, send_chunks, send_file}
use os_workshop.Tools.Sender.File.{
  HasHeads, loaded, write_message, sent-HasHeads, sent-write_message,
}
use os_workshop.Tools.Link.{Target, listens, hangs, runs, Link, link, arrived}
use os_workshop.Tools.Link.Answered.{Earlier, Handles, arrived-Handles}
use os_workshop.Tools.Link.Tries.{send_msg-IsAccepted}
use os_workshop.Tools.Link.Handled.Write.{handle-Handled}
use os_workshop.Tools.Link.Overlay.{IsChunks, contents, Loaded, Loaded-append, follows}

-- The target is ready, and has answered what came up to the last number.
pub record IsReady (st : Sender Link) (b : Board) : Type 0 where
  pub target : st.net.target ≡ listens b
  pub bytes : BoardBytes b
  pub earlier : Earlier st.seq st.net.under_way

-- The target has the data of a message.
abbrev Stored : (addr : ℕ) → List ℕ → Target → Type 0
Stored addr c target = (b : Board) × (target ≡ listens b) × (slice b.ram addr (length c) ≡ c)

-- The memory of a target that listens is `ram` but for `n` bytes from `addr` on.
abbrev OnlyAt : Memory → (addr n : ℕ) → Target → Type 0
OnlyAt ram addr n (listens b) =
    BoardBytes b × ((a : ℕ) → (a < addr) ⊎ (addr + n ≤ a) → b.ram a ≡ ram a)
OnlyAt ram addr n hangs = Unit
OnlyAt ram addr n (runs entry b) = Unit

OnlyAt-listens :
    (ram : Memory) (addr n : ℕ) (target : Target) (b : Board)
    → target ≡ listens b
    → OnlyAt ram addr n target
    → BoardBytes b × ((a : ℕ) → (a < addr) ⊎ (addr + n ≤ a) → b.ram a ≡ ram a)
OnlyAt-listens ram addr n target b e h = subst (OnlyAt ram addr n) e h

arrived-OnlyAt :
    (heads : Memory)
    → IsBytes heads
    → (ram : Memory) (addr : ℕ) (c : List ℕ) → addr < 2 ^ 32
    → length c ≤ 1024
    → AllBytes c
    → (t : Bool) (seq : ℕ) (target : Target) → seq < 2 ^ 32
    → OnlyAt ram addr (length c) target
    → Handles
        (OnlyAt ram addr (length c))
        (Stored addr c)
        seq
        (arrived heads t (write_message seq addr c) target)
arrived-OnlyAt heads heads_bytes ram addr c ha short hc t seq target small only =
    let P = OnlyAt ram addr (length c) in
    let Q = Stored addr c in
    arrived-Handles P Q heads t (write_message seq addr c) seq target only (λ b (bytes, same).
      elim (handle-Handled heads heads_bytes seq addr small ha b bytes c short hc) [
        | inl e ↦ subst (Handles P Q seq) (sym e) (tt, tt, inl refl)
        | inr (b', e, h) ↦ subst (Handles P Q seq) (sym e) (
          (h.bytes, λ a out. h.elsewhere a out ∙ same a out),
          ((seq, omega arith, refl), tt),
          inr (b', refl, h.stored),
        )
      ])

module _ (heads : Memory) (heads_bytes : IsBytes heads) where
  -- One part of the file.
  chunk :
      (addr : ℕ) (c : List ℕ) (st : Sender Link) (b : Board)
      → addr < 2 ^ 32
      → length c ≤ 1024
      → AllBytes c
      → HasHeads st.msg
      → IsReady st b
      → st.seq + 5 < 2 ^ 32
      → let r =
          send_msg
            (link heads)
            (length c + nb_msg_min)
            (record st { msg = loaded st.msg addr c }) in
        r.0 ≡ true
        → (b' : Board) × IsReady r.1 b'
          × Loaded addr c b.ram b'.ram
          × HasHeads r.1.msg
          × (r.1.seq ≤ st.seq + 5)
  chunk addr c st b ha short hc hm ready few e =
      let st1 : Sender Link = record st { msg = loaded st.msg addr c } in
      let a =
        send_msg-IsAccepted (OnlyAt b.ram addr (length c)) (Stored addr c) heads
          (loaded st.msg addr c) (length c + nb_msg_min) (λ n. write_message n addr c)
          (λ m' n kept numbered. sent-write_message st.msg m' n addr c hm kept numbered)
          (λ arrives n target small only.
            arrived-OnlyAt heads heads_bytes b.ram addr c ha short hc arrives n target small only)
          (st.seq + 5) few st1
          (record {
            msg = λ j out. refl;
            between = record {
              earlier = ready.earlier;
              target =
                  subst (OnlyAt b.ram addr (length c)) (sym ready.target)
                    (ready.bytes, λ a out. refl);
            };
            numbers = omega arith;
          })
          e in
      let (b', target, holds) = a.answered in
      let (bytes, elsewhere) =
        OnlyAt-listens b.ram addr (length c) _ b' target a.tried.between.target in
      (
        b',
        record { target = target; bytes = bytes; earlier = a.tried.between.earlier },
        record { stored = holds; elsewhere = elsewhere },
        sent-HasHeads st.msg _ _ addr c hm a.tried.msg a.numbered,
        let n = a.tried.numbers in omega arith,
      )

  send_chunks-Loaded :
      (addr : ℕ) (cs : List (List ℕ)) (failed : Bool) (st : Sender Link) (b : Board)
      → HasHeads st.msg
      → IsReady st b
      → IsChunks cs
      → addr + length (contents cs) ≤ 2 ^ 32
      → st.seq + 5 * length cs < 2 ^ 32
      → (send_chunks (link heads) addr cs failed st).0 ≡ true
      → (b' : Board) × IsReady (send_chunks (link heads) addr cs failed st).1 b'
        × Loaded addr (contents cs) b.ram b'.ram
        × ((send_chunks (link heads) addr cs failed st).1.seq ≤ st.seq + 5 * length cs)
  unfolding send_chunks
  send_chunks-Loaded addr [] failed st b hm ready is fits few e =
      (b, ready, record { stored = refl; elsewhere = λ a out. refl }, omega arith)
  send_chunks-Loaded addr (c ∷ cs) failed st b hm ready (some_bytes, short, hc, is) fits few e =
      let st1 : Sender Link = record st { msg = loaded st.msg addr c } in
      let r = send_msg (link heads) (length c + nb_msg_min) st1 in
      let rest = send_chunks (link heads) (u32 (addr + length c)) cs failed r.1 in
      elim (Bool-cases r.0) [
        | inl ok ↦
            let chosen : (if r.0 then rest else (false, r.1)) ≡ rest =
              ap (λ b. if b then rest else (false, r.1)) ok in
            let done : rest.0 ≡ true = sym (ap (λ (p : Bool × Sender Link). p.0) chosen) ∙ e in
            let n = length-append c (contents cs) in
            let (b1, ready1, first, heads1, numbers) =
              chunk addr c st b (omega arith) short hc hm ready (omega arith) ok in
            let (room, next) = follows addr c (contents cs) fits in
            let (b2, ready2, second, numbers2) =
              send_chunks-Loaded (u32 (addr + length c)) cs failed r.1 b1 heads1 ready1 is room
                (omega arith) done in
            (
              b2,
              subst (λ (p : Bool × Sender Link). IsReady p.1 b2) (sym chosen) ready2,
              Loaded-append addr (u32 (addr + length c)) c (contents cs) b.ram b1.ram b2.ram next
                  first second,
              subst (λ (p : Bool × Sender Link). p.1.seq ≤ st.seq + 5 * length (c ∷ cs))
                  (sym chosen) (omega arith),
            )
        | inr bad ↦
            absurd (false≢true (sym (ap (λ b. (if b then rest else (false, r.1)).0) bad) ∙ e))
      ]

  -- If `send_file` returns 0, the target's memory is what it was with the file at the address, whatever
  -- the network lost or delivered late. The file lies below the end of the address space, and less than
  -- 2 ^ 32 numbers are used up.
  pub send_file-Loaded :
      (addr : ℕ) (chunks : List (List ℕ)) (failed : Bool) (msg : Memory) (st : Sender Link)
      (b : Board)
      → IsReady st b
      → IsChunks chunks
      → addr + length (contents chunks) ≤ 2 ^ 32
      → st.seq + 5 * length chunks < 2 ^ 32
      → (send_file (link heads) addr chunks failed msg st).0 ≡ true
      → (b' : Board) × IsReady (send_file (link heads) addr chunks failed msg st).1 b'
        × Loaded addr (contents chunks) b.ram b'.ram
        × ((send_file (link heads) addr chunks failed msg st).1.seq ≤ st.seq + 5 * length chunks)
  unfolding send_file
  send_file-Loaded addr chunks failed msg st b ready is fits few e =
      send_chunks-Loaded addr chunks failed
        (record st { msg = wr32 (wr32 msg 0 nb_magic) 4 nb_cmd_write }) b
        (record {
          magic =
              slice-wr32_ne (wr32 msg 0 nb_magic) 4 nb_cmd_write 0 4 (inr (omega arith))
              ∙ slice-wr32_self msg 0 nb_magic;
          cmd = slice-wr32_self (wr32 msg 0 nb_magic) 4 nb_cmd_write;
        })
        (record { target = ready.target; bytes = ready.bytes; earlier = ready.earlier }) is fits few
        e
