-- ===== src/Tools/Link/Started.antt =====
-- One attempt of main of tools/netboot.c over Tools.Link: what runs when its EXEC message is accepted.
use os_workshop.Base.{
  ℕ, ◌+◌, ◌*◌, ◌^◌, ◌≤◌, ◌<◌, ◌≡◌, inl, inr, Bool, true, false, List, [], ◌∷◌, Memory, IsBytes,
  length, u32, arith, ap, ◌∙◌, sym, refl,
}
use mathlib.Core.Path.{subst}
use os_workshop.Boot.Message.{nb_msg_min}
use os_workshop.Boot.Board.{Board}
use os_workshop.Boot.Netboot.Reply.{BoardBytes}
use os_workshop.Tools.Sender.{Sender, send_file}
use os_workshop.Tools.Sender.File.{send_file-whole}
use os_workshop.Tools.Upload.{Image, executed, send_image, send_images, send_exec, attempt}
use os_workshop.Tools.Upload.Complete.{
  exec_message, exec_loaded, exec_loaded-exec_message, succeeds, executes,
}
use os_workshop.Tools.Link.{Target, listens, hangs, runs, Link, link, arrived}
use os_workshop.Tools.Link.Answered.{Earlier-mono, Handles, arrived-Handles}
use os_workshop.Tools.Link.Tries.{send_msg-IsAccepted}
use os_workshop.Tools.Link.Handled.Exec.{handle-runs}
use os_workshop.Tools.Link.Overlay.{IsChunks, contents, Loaded}
use os_workshop.Tools.Link.Loaded.{IsReady, send_file-Loaded}

-- The target has left for `addr`, with the memory `ram`.
abbrev Runs : Memory → (addr : ℕ) → Target → Type 0
Runs ram addr target = (b : Board) × (target ≡ runs addr b) × (b.ram ≡ ram)

-- While it listens, it has that memory.
abbrev Waits : Memory → Target → Type 0
Waits ram (listens b) = BoardBytes b × (b.ram ≡ ram)
Waits ram hangs = Unit
Waits ram (runs entry b) = Unit

arrived-Waits :
    (heads : Memory)
    → IsBytes heads
    → (ram : Memory) (addr : ℕ) → addr < 2 ^ 32
    → (t : Bool) (seq : ℕ) (target : Target) → seq < 2 ^ 32
    → Waits ram target
    → Handles (Waits ram) (Runs ram addr) seq (arrived heads t (exec_message seq addr) target)
arrived-Waits heads heads_bytes ram addr ha t seq target small waits =
    let P = Waits ram in
    let Q = Runs ram addr in
    arrived-Handles P Q heads t (exec_message seq addr) seq target waits (λ b (bytes, same).
      elim (handle-runs heads heads_bytes seq addr small ha b bytes) [
        | inl e ↦ subst (Handles P Q seq) (sym e) (tt, tt, inl refl)
        | inr (b', e, h) ↦
            subst (Handles P Q seq) (sym e)
              (tt, ((seq, omega arith, refl), tt), inr (b', refl, h ∙ same))
      ])

-- Each image is what the reads of a file give, and ends below the end of the address space.
abbrev pub AreImages : List Image → Type 0
AreImages [] = Unit
AreImages (im ∷ ims) =
    IsChunks im.chunks
    × (im.addr < 2 ^ 32)
    × (im.addr + length (contents im.chunks) ≤ 2 ^ 32)
    × AreImages ims

-- The number of their WRITE messages, without repetitions.
abbrev pub messages : List Image → ℕ
messages [] = 0
messages (im ∷ ims) = length im.chunks + messages ims

-- Every file could be opened and read to its end, and `ram'` is `ram` with what was read in it, the
-- later images over the earlier ones.
abbrev pub AllLoaded : List Image → (ram ram' : Memory) → Type 0
AllLoaded [] ram ram' = ram' ≡ ram
AllLoaded (im ∷ ims) ram ram' =
    (mid : Memory) × (im.opens ≡ true)
    × (im.read_fails ≡ false)
    × Loaded im.addr (contents im.chunks) ram mid
    × AllLoaded ims mid ram'

module _ (heads : Memory) (heads_bytes : IsBytes heads) where
  send_exec-Runs :
      (addr : ℕ) (msg : Memory) (st : Sender Link) (b : Board)
      → addr < 2 ^ 32
      → IsReady st b
      → st.seq + 6 < 2 ^ 32
      → (send_exec (link heads) addr msg st).0 ≡ true
      → Runs b.ram addr (send_exec (link heads) addr msg st).1.net.target
  unfolding send_exec
  send_exec-Runs addr msg st b ha ready few e =
      let seq = u32 (st.seq + 1) in
      let same : seq ≡ st.seq + 1 = omega arith in
      let later = Earlier-mono st.seq seq st.net.under_way (omega arith) ready.earlier in
      (send_msg-IsAccepted (Waits b.ram) (Runs b.ram addr) heads (exec_loaded msg seq addr)
        nb_msg_min (λ n. exec_message n addr)
        (λ m' n kept numbered. exec_loaded-exec_message msg m' seq addr n kept numbered)
        (λ arrives n target small waits.
          arrived-Waits heads heads_bytes b.ram addr ha arrives n target small waits)
        (st.seq + 6) few (record st { seq = seq; msg = exec_loaded msg seq addr })
        (record {
          msg = λ j out. refl;
          between = record {
            earlier = later;
            target = subst (Waits b.ram) (sym ready.target) (ready.bytes, refl);
          };
          numbers = omega arith;
        })
        e).answered

  send_image-Loaded :
      (im : Image) (msg : Memory) (st : Sender Link) (b : Board)
      → IsReady st b
      → AreImages (im ∷ [])
      → st.seq + 5 * length im.chunks < 2 ^ 32
      → (send_image (link heads) im msg st).0 ≡ true
      → (b' : Board) × IsReady (send_image (link heads) im msg st).1 b'
        × (im.opens ≡ true)
        × (im.read_fails ≡ false)
        × Loaded im.addr (contents im.chunks) b.ram b'.ram
        × ((send_image (link heads) im msg st).1.seq ≤ st.seq + 5 * length im.chunks)
  unfolding send_image
  send_image-Loaded im msg st b ready (is, _, fits, _) few e =
      let file = send_file (link heads) im.addr im.chunks im.read_fails msg st in
      let (opened, same, done) = succeeds im.opens file st e in
      let (b', ready', loaded, numbers) =
        send_file-Loaded heads heads_bytes im.addr im.chunks im.read_fails msg st b ready is fits
          few done in
      (
        b',
        subst (λ (p : Bool × Sender Link). IsReady p.1 b') (sym same) ready',
        opened,
        send_file-whole (link heads) im.addr im.chunks im.read_fails msg st done,
        loaded,
        subst (λ (p : Bool × Sender Link). p.1.seq ≤ st.seq + 5 * length im.chunks) (sym same)
            numbers,
      )

  send_images-AllLoaded :
      (ims : List Image) (msg : Memory) (st : Sender Link) (b : Board)
      → IsReady st b
      → AreImages ims
      → st.seq + 5 * messages ims < 2 ^ 32
      → (send_images (link heads) ims msg st).0 ≡ true
      → (b' : Board) × IsReady (send_images (link heads) ims msg st).1 b'
        × AllLoaded ims b.ram b'.ram
        × ((send_images (link heads) ims msg st).1.seq ≤ st.seq + 5 * messages ims)
  unfolding send_images
  send_images-AllLoaded [] msg st b ready are few e = (b, ready, refl, omega arith)
  send_images-AllLoaded (im ∷ ims) msg st b ready (is, low, fits, are) few e =
      let r = send_image (link heads) im msg st in
      let rest = send_images (link heads) ims msg r.1 in
      let (ok, same, done) = succeeds r.0 rest r.1 e in
      let (b1, ready1, opened, whole, loaded, n1) =
        send_image-Loaded im msg st b ready (is, low, fits, tt) (omega arith) ok in
      let (b2, ready2, all, n2) =
        send_images-AllLoaded ims msg r.1 b1 ready1 are (omega arith) done in
      (
        b2,
        subst (λ (p : Bool × Sender Link). IsReady p.1 b2) (sym same) ready2,
        (b1.ram, opened, whole, loaded, all),
        subst (λ (p : Bool × Sender Link). p.1.seq ≤ st.seq + 5 * messages (im ∷ ims)) (sym same)
            (omega arith),
      )

  -- If an attempt of main ends with an EXEC message that was accepted, the target has left for the
  -- address of the first image; every file could be opened and read to its end, and what was read is in
  -- the target's memory, the later images over the earlier ones, and nothing else changed, whatever the network lost or delivered late. The images lie below the end of
  -- the address space, and less than 2 ^ 32 numbers are used up.
  pub attempt-AllLoaded :
      (im : Image) (ims : List Image) (file_msg msg : Memory) (st st' : Sender Link) (b : Board)
      → IsReady st b
      → AreImages (im ∷ ims)
      → st.seq + 5 * messages (im ∷ ims) + 6 < 2 ^ 32
      → attempt (link heads) im ims file_msg msg st ≡ executed true st'
      → (b' : Board) × (st'.net.target ≡ runs im.addr b') × AllLoaded (im ∷ ims) b.ram b'.ram
  unfolding attempt
  attempt-AllLoaded im ims file_msg msg st st' b ready are few e =
      let all = send_images (link heads) (im ∷ ims) file_msg st in
      let r = send_exec (link heads) im.addr msg all.1 in
      let (ok, ran, last) = executes all.0 r.0 all.1 r.1 st' e in
      let (b1, ready1, loaded, n) =
        send_images-AllLoaded (im ∷ ims) file_msg st b ready are (omega arith) ok in
      let (b2, target, same) = send_exec-Runs im.addr msg all.1 b1 are.1 ready1 (omega arith) ran in
      (
        b2,
        ap (λ (s : Sender Link). s.net.target) (sym last) ∙ target,
        subst (AllLoaded (im ∷ ims) b.ram) (sym same) loaded,
      )
