-- ===== src/Tools/Main/Finished.antt =====
-- When main of tools/netboot.c returns 0 at its end.
use os_workshop.Base.{ℕ, ◌≡◌, if◌then◌else◌, Bool, true, List, ◌∷◌, ◌++◌}
use os_workshop.Tools.Sender.{Answer, Entry, Sender}
use os_workshop.Tools.Upload.{Image, Outcome, send_failure, executed, attempt}
use os_workshop.Tools.Upload.Complete.{AllDelivered}
use os_workshop.Tools.Search.{Search, Round, Query, located, failed, searching}
use os_workshop.Tools.Search.Located.{Found}
use os_workshop.Tools.Options.{Options}
use os_workshop.Tools.Main.{
  Session, End, finished, no_node, running, device, sender, query, session_loop,
}

-- The log is only added to.
abbrev pub Extends : (log log' : List Entry) → Type 0
Extends log log' = (before : List Entry) × (log' ≡ before ++ log)

-- `peer node` is what answers a socket that is connected to `node`.
module _ {W : Type 0} (peer : (node : ℕ) → W → List ℕ → W × Answer) where
  -- A turn of the loop of main that sent all images to a node that answered.
  abbrev pub Delivers : Image → List Image → Sender W → Type 0
  Delivers im ims st' =
      (q : Query) × (q' : Query) × (node : ℕ) × (rounds : List Round) × Found device rounds q node
        q'
      × (log : List Entry) × AllDelivered (peer node) (im ∷ ims) q'.log log
      × Extends log st'.log

  -- One turn; `again` is for the turns behind it.
  module _ (do_exit : Bool) (im : Image) (ims : List Image) (s : Session W) (ss : List (Session W))
      (q : Query) (st' : Sender W)
      (again : (q1 : Query)
        → session_loop peer do_exit im ims ss q1 ≡ finished st'
        → (do_exit ≡ true) × Delivers im ims st') where
    abbrev sent_to : Outcome W → End W
    sent_to r = elim r [
      | send_failure st ↦ session_loop peer do_exit im ims ss (query peer st)
      | executed _ st ↦
          let rest = session_loop peer do_exit im ims ss (query peer st) in
          if do_exit then finished st else rest
    ]

    abbrev found_by : Search → End W
    found_by r = elim r [
      | failed q' ↦ no_node q'
      | searching q' ↦ running q'
      | located node q' ↦ sent_to (attempt (peer node) im ims s.file_msg s.msg (sender peer s q'))
    ]
