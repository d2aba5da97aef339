-- ===== src/Tools/Upload.antt =====
-- One attempt of `main` of tools/netboot.c, behind open_node: it sends the images and then starts the
-- first one. What the reads of each file give is a part of its image here.
pub mod Complete
use os_workshop.Base.{
  ℕ, ◌+◌, ◌^◌, ◌%◌, if◌then◌else◌, Bool, true, false, List, [], ◌∷◌, Memory, wr32, u32,
}
use os_workshop.Boot.Message.{nb_magic, nb_cmd_exec, nb_msg_min}
use os_workshop.Tools.Sender.{Answer, Sender, send_file, send_msg}

-- A file, if it can be opened, and where it is to be loaded.
pub record Image : Type 0 where
  pub addr : ℕ
  pub opens : Bool
  pub chunks : List (List ℕ)
  pub read_fails : Bool

pub data Outcome (W : Type 0) : Type 0 where
  send_failure : Sender W → Outcome W
  executed : (accepted : Bool) → Sender W → Outcome W

module _ {W : Type 0} (peer : W → List ℕ → W × Answer) where
  unfoldable pub send_image : Image → Memory → Sender W → Bool × Sender W
  send_image im msg st =
      if im.opens then send_file peer im.addr im.chunks im.read_fails msg st else (false, st)

  -- `for (unsigned n = 0; n < imagecount; n++)`; `msg` is what the stack of send_file holds.
  unfoldable pub send_images : List Image → Memory → Sender W → Bool × Sender W
  send_images [] msg st = (true, st)
  send_images (im ∷ ims) msg st =
      let r = send_image im msg st in
      let rest = send_images ims msg r.1 in if r.0 then rest else (false, r.1)

  -- `msg.seq = ++seq`, before send_msg takes the next number.
  unfoldable pub send_exec : (addr : ℕ) → Memory → Sender W → Bool × Sender W
  send_exec addr msg st =
      let seq = u32 (st.seq + 1) in
      send_msg peer nb_msg_min (record st {
        seq = seq;
        msg = wr32 (wr32 (wr32 (wr32 msg 0 nb_magic) 4 nb_cmd_exec) 8 seq) 12 addr;
      })

  -- The first image is `im`; what send_msg returns for the EXEC message is not looked at.
  unfoldable pub attempt : Image → List Image → (file_msg msg : Memory) → Sender W → Outcome W
  unfolding send_images send_exec
  attempt im ims file_msg msg st =
      let sent = send_images (im ∷ ims) file_msg st in
      let r = send_exec im.addr msg sent.1 in
      if sent.0 then executed r.0 r.1 else send_failure sent.1
