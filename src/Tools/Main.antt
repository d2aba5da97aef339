-- ===== src/Tools/Main.antt =====
-- main of tools/netboot.c: its options, and the loop that looks for the node and sends the images to it.
pub mod Finished
use os_workshop.Base.{ℕ, if◌then◌else◌, Bool, true, false, List, [], ◌∷◌, Memory, map}
use os_workshop.Tools.Sender.{Answer, Entry, Sender}
use os_workshop.Tools.Upload.{Image, send_failure, executed, attempt}
use os_workshop.Tools.Search.{Round, Query, located, failed, searching, open_node}
use os_workshop.Tools.Options.{Text, Named, Complaint, no_files, parsed, usage, rejected, options}

-- What one turn of the loop of main finds: the rounds of open_node, the network behind the socket that it
-- returns, and what the stacks of send_file and main hold.
pub record Session (W : Type 0) : Type 0 where
  pub opens : Bool
  pub rounds : List Round
  pub net : W
  pub file_msg : Memory
  pub msg : Memory

-- main returns 0 behind the usage, or -1, or 0 at the end; or it has not returned in these turns.
pub data End (W : Type 0) : Type 0 where
  shows_usage : End W
  rejects : Complaint → End W
  no_node : Query → End W
  finished : Sender W → End W
  running : Query → End W

-- "device"; the node that `-n` names is printed only.
abbrev pub device : Text
device = b'd' ∷ b'e' ∷ b'v' ∷ b'i' ∷ b'c' ∷ b'e' ∷ []

-- `peer node` is what answers a socket that is connected to `node`.
module _ {W : Type 0} (peer : (node : ℕ) → W → List ℕ → W × Answer) where
  abbrev pub sender : Session W → Query → Sender W
  sender s q = record { seq = q.seq; msg = s.msg; net = s.net; log = q.log }

  abbrev pub query : Sender W → Query
  query st = record { seq = st.seq; log = st.log }

  -- The endless loop, for the turns that are given.
  unfoldable pub session_loop :
      (do_exit : Bool) → Image → List Image → List (Session W) → Query → End W
  session_loop do_exit im ims [] q = running q
  session_loop do_exit im ims (s ∷ ss) q = elim (open_node s.opens device s.rounds q) [
    | failed q' ↦ no_node q'
    | searching q' ↦ running q'
    | located node q' ↦ elim (attempt (peer node) im ims s.file_msg s.msg (sender s q')) [
      | send_failure st ↦ session_loop do_exit im ims ss (query st)
      | executed _ st ↦
          let rest = session_loop do_exit im ims ss (query st) in
          if do_exit then finished st else rest
    ]
  ]

  -- `index` is `if_nametoindex`, and `file` what is found under a name.
  unfoldable pub main :
      (index : Text → ℕ) (file : Named → Image) → List Text → List (Session W) → Query → End W
  unfolding session_loop
  main index file args sessions q = elim (options index args) [
    | usage ↦ shows_usage
    | rejected c ↦ rejects c
    | parsed o ↦ elim o.images [
      | [] ↦ rejects no_files
      | im ∷ ims ↦ session_loop o.do_exit (file im) (map file ims) sessions q
    ]
  ]
