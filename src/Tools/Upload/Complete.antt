-- ===== src/Tools/Upload/Complete.antt =====
-- What was sent when an attempt of tools/netboot.c ends with an accepted EXEC message.
use os_workshop.Base.{
  ℕ, ◌+◌, ◌<◌, ◌≤◌, ◌⊎◌, ◌≡◌, if◌then◌else◌, Bool, true, false, inl, inr, List, [], ◌∷◌, ◌++◌,
  Memory, wr32, slice, le32, slice-add, slice-wr32_self, slice-wr32_ne, slice-eq_of_SameBytes, u32,
  arith, refl, sym, ap, ap₂, ◌∙◌,
}
use mathlib.Core.Bool.{false≢true}
use mathlib.Core.Path.{subst}
use os_workshop.Boot.Message.{nb_magic, nb_cmd_exec, nb_msg_min}
use os_workshop.Tools.Sender.{Answer, Entry, sent, printed, Sender, send_file, send_msg}
use os_workshop.Tools.Sender.Tries.{IsOk, send_msg-Accepted}
use os_workshop.Tools.Sender.File.{Delivered, send_file-Delivered, send_file-whole}
use os_workshop.Tools.Upload.{
  Image, executed, send_failure, send_image, send_images, send_exec, attempt,
}

-- An EXEC message of the boot protocol.
abbrev pub exec_message : (seq addr : ℕ) → List ℕ
exec_message seq addr = le32 nb_magic ++ le32 nb_cmd_exec ++ le32 seq ++ le32 addr

-- Every file could be opened and read to its end, and what its reads gave was delivered, one image
-- after the other.
abbrev pub AllDelivered :
    {W : Type 0} → (W → List ℕ → W × Answer) → List Image → (log log' : List Entry) → Type 0
AllDelivered peer [] log log' = log' ≡ log
AllDelivered peer (im ∷ ims) log log' =
    (mid : List Entry) × (im.opens ≡ true)
    × (im.read_fails ≡ false)
    × Delivered peer im.addr im.chunks log mid
    × AllDelivered peer ims mid log'

-- The EXEC message was accepted, behind what `log` holds.
abbrev pub Started :
    {W : Type 0} → (W → List ℕ → W × Answer) → (addr : ℕ) → (log log' : List Entry) → Type 0
Started {W} peer addr log log' =
    (seq : ℕ) × (w : W) × (before : List Entry) × IsOk seq (peer w (exec_message seq addr)).1
    × (log' ≡ printed b'.' ∷ sent (exec_message seq addr) ∷ before ++ log)

-- Only the branch that goes on can succeed.
pub succeeds :
    {W : Type 0} (b : Bool) (goes_on : Bool × Sender W) (st : Sender W)
    → (if b then goes_on else (false, st)).0 ≡ true
    → (b ≡ true) × ((if b then goes_on else (false, st)) ≡ goes_on) × (goes_on.0 ≡ true)
succeeds true goes_on st e = (refl, refl, e)
succeeds false goes_on st e = absurd (false≢true e)

pub executes :
    {W : Type 0} (b accepted : Bool) (failed st st' : Sender W)
    → (if b then executed accepted st else send_failure failed) ≡ executed true st'
    → (b ≡ true) × (accepted ≡ true) × (st ≡ st')
executes true accepted failed st st' e = (refl, cc, cc)
executes false accepted failed st st' e = cc

-- Four words in a row.
four_words :
    (m : Memory) (a b c d : List ℕ)
    → slice m 0 4 ≡ a
    → slice m 4 4 ≡ b
    → slice m 8 4 ≡ c
    → slice m 12 4 ≡ d
    → slice m 0 16 ≡ a ++ (b ++ (c ++ d))
four_words m a b c d ea eb ec ed =
    slice-add m 0 4 12 4 refl
    ∙ ap₂ ◌++◌ ea
        (slice-add m 4 4 8 8 refl ∙ ap₂ ◌++◌ eb (slice-add m 8 4 4 12 refl ∙ ap₂ ◌++◌ ec ed))

-- What `send_exec` gives to send_msg.
abbrev pub exec_loaded : Memory → (seq addr : ℕ) → Memory
exec_loaded msg seq addr = wr32 (wr32 (wr32 (wr32 msg 0 nb_magic) 4 nb_cmd_exec) 8 seq) 12 addr

-- Under another number it is an EXEC message.
pub exec_loaded-exec_message :
    (msg m' : Memory) (seq addr n : ℕ)
    → ((j : ℕ) → (j < 8) ⊎ (12 ≤ j) → m' j ≡ exec_loaded msg seq addr j)
    → slice m' 8 4 ≡ le32 n
    → slice m' 0 16 ≡ exec_message n addr
exec_loaded-exec_message msg m' seq addr n kept numbered =
    let m1 = wr32 msg 0 nb_magic in
    let m2 = wr32 m1 4 nb_cmd_exec in
    let m3 = wr32 m2 8 seq in
    let m = wr32 m3 12 addr in
    four_words m' (le32 nb_magic) (le32 nb_cmd_exec) (le32 n) (le32 addr)
      (slice-eq_of_SameBytes m' m 0 0 4 (λ i lt. kept (0 + i) (inl (omega arith)))
        ∙ slice-wr32_ne m3 12 addr 0 4 (inr (omega arith))
        ∙ slice-wr32_ne m2 8 seq 0 4 (inr (omega arith))
        ∙ slice-wr32_ne m1 4 nb_cmd_exec 0 4 (inr (omega arith))
        ∙ slice-wr32_self msg 0 nb_magic)
      (slice-eq_of_SameBytes m' m 4 4 4 (λ i lt. kept (4 + i) (inl (omega arith)))
        ∙ slice-wr32_ne m3 12 addr 4 4 (inr (omega arith))
        ∙ slice-wr32_ne m2 8 seq 4 4 (inr (omega arith))
        ∙ slice-wr32_self m1 4 nb_cmd_exec)
      numbered
      (slice-eq_of_SameBytes m' m 12 12 4 (λ i lt. kept (12 + i) (inr (omega arith)))
        ∙ slice-wr32_self m3 12 addr)

module _ {W : Type 0} (peer : W → List ℕ → W × Answer) where
  send_exec-Started :
      (addr : ℕ) (msg : Memory) (st : Sender W)
      → (send_exec peer addr msg st).0 ≡ true
      → Started peer addr st.log (send_exec peer addr msg st).1.log
  unfolding send_exec
  send_exec-Started addr msg st e =
      let seq = u32 (st.seq + 1) in
      let st' : Sender W = record st { seq = seq; msg = exec_loaded msg seq addr } in
      let r = send_msg peer nb_msg_min st' in
      let a = send_msg-Accepted peer nb_msg_min st' e in
      let message = exec_loaded-exec_message msg r.1.msg seq addr r.1.seq a.kept a.numbered in
      (
        r.1.seq,
        a.answered.0,
        a.before,
        subst (λ bytes. IsOk r.1.seq (peer a.answered.0 bytes).1) message a.answered.2,
        a.logged ∙ ap (λ bytes. printed b'.' ∷ sent bytes ∷ a.before ++ st.log) message,
      )

  send_image-Delivered :
      (im : Image) (msg : Memory) (st : Sender W)
      → (send_image peer im msg st).0 ≡ true
      → (im.opens ≡ true)
        × (im.read_fails ≡ false)
        × Delivered peer im.addr im.chunks st.log (send_image peer im msg st).1.log
  unfolding send_image
  send_image-Delivered im msg st e =
      let file = send_file peer im.addr im.chunks im.read_fails msg st in
      let (opened, same, done) = succeeds im.opens file st e in
      (
        opened,
        send_file-whole peer im.addr im.chunks im.read_fails msg st done,
        subst (λ (p : Bool × Sender W). Delivered peer im.addr im.chunks st.log p.1.log) (sym same)
            (send_file-Delivered peer im.addr im.chunks im.read_fails msg st done),
      )

  pub send_images-AllDelivered :
      (ims : List Image) (msg : Memory) (st : Sender W)
      → (send_images peer ims msg st).0 ≡ true
      → AllDelivered peer ims st.log (send_images peer ims msg st).1.log
  unfolding send_images
  send_images-AllDelivered [] msg st e = refl
  send_images-AllDelivered (im ∷ ims) msg st e =
      let r = send_image peer im msg st in
      let rest = send_images peer ims msg r.1 in
      let (ok, same, done) = succeeds r.0 rest r.1 e in
      let (opened, whole, first) = send_image-Delivered im msg st ok in
      (
        r.1.log,
        opened,
        whole,
        first,
        subst (λ (p : Bool × Sender W). AllDelivered peer ims r.1.log p.1.log) (sym same)
            (send_images-AllDelivered ims msg r.1 done),
      )

  -- If an attempt of main ends with an EXEC message that was accepted, every file could be opened
  -- and read to its end, and what was read of it was sent completely, in WRITE messages at the addresses of its image, in
  -- order, each accepted before the next; the EXEC message came last and carries the address of the
  -- first image.
  attempt_lem :
      (im : Image) (ims : List Image) (file_msg msg : Memory) (st st' : Sender W)
      → attempt peer im ims file_msg msg st ≡ executed true st'
      → (log : List Entry) × AllDelivered peer (im ∷ ims) st.log log
        × Started peer im.addr log st'.log
  unfolding attempt
  attempt_lem im ims file_msg msg st st' e =
      let all = send_images peer (im ∷ ims) file_msg st in
      let r = send_exec peer im.addr msg all.1 in
      let (ok, ran, last) = executes all.0 r.0 all.1 r.1 st' e in
      (
        all.1.log,
        send_images-AllDelivered (im ∷ ims) file_msg st ok,
        subst (λ (s : Sender W). Started peer im.addr all.1.log s.log) last
            (send_exec-Started im.addr msg all.1 ran),
      )
