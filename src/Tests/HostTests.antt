-- ===== src/Tests/HostTests.antt =====
-- The host program with a node that answers the second query, and the second try of each message.
use os_workshop.Base.{◌≡◌, ◌+◌, arith, ℕ, zero, suc, true, false, List, [], ◌∷◌, ◌++◌, le32}
use os_workshop.Boot.Message.{nb_magic, nb_cmd_status}
use os_workshop.Tools.Sender.{Answer, silent, reply, Sender}
use os_workshop.Tools.Upload.{Image}
use os_workshop.Tools.Search.{Round, Query}
use os_workshop.Tools.Options.{Text, Named, Options, parsed, nothing, defaults, parse_args}
use os_workshop.Tools.Options.Written.{
  Item, image, interface_is, exits, command_line, parse_args-command_line,
}
use os_workshop.Tools.Main.{Session, device}

-- Silence, and then OK under the number of the second try.
abbrev target : ℕ → List ℕ → ℕ × Answer
target zero _ = (1, silent)
target (suc n) _ = (n + 2, reply (le32 nb_magic ++ le32 nb_cmd_status ++ le32 (n + 5) ++ le32 0))

abbrev os : Named
os = record { name = b'o' ∷ b's' ∷ []; addr = 0x40008000 }

abbrev items : List Item
items = interface_is (b't' ∷ b'0' ∷ []) ∷ image os ∷ exits ∷ []

parse_args-command_line_example :
    parse_args nothing (command_line items) defaults
    ≡ parsed
        (record { do_exit = true; ifname = b't' ∷ b'0' ∷ []; nodename = device; images = os ∷ [] })
parse_args-command_line_example = parse_args-command_line items defaults (omega arith) (omega arith)

-- A message of somebody else, a query without an answer, and the answer to the next one.
abbrev rounds : List Round
rounds =
    record { due = false; sends = true; datagram = 1 ∷ 2 ∷ []; sender = 7; connects = true }
    ∷ record { due = true; sends = true; datagram = []; sender = 0; connects = true }
    ∷ record {
      due = true;
      sends = true;
      datagram = le32 nb_magic ++ le32 nb_cmd_status ++ le32 3 ++ le32 0;
      sender = 9;
      connects = true;
    }
    ∷ []

abbrev start : Query
start = record { seq = 1; log = [] }

abbrev file : Named → Image
file n = record { addr = n.addr; opens = true; chunks = (1 ∷ 2 ∷ 3 ∷ []) ∷ []; read_fails = false }

abbrev session : Session ℕ
session = record { opens = true; rounds = rounds; net = 0; file_msg = λ _. 0xaa; msg = λ _. 0 }

abbrev index : Text → ℕ
index _ = 2
