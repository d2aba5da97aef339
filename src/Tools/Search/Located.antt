-- ===== src/Tools/Search/Located.antt =====
-- When `open_node` of tools/netboot.c returns a socket.
use os_workshop.Base.{ℕ, zero, suc, ◌≤◌, ◌≡◌, ◌⊎◌, true, List, [], ◌∷◌, of_list, length, take}
use os_workshop.Boot.Message.{nb_magic, nb_cmd_status, msg_magic, msg_cmd, msg_seq}
use os_workshop.Tools.Search.{Round, Query, Search, queried}

-- A status message under this number.
abbrev pub IsAnswer : (seq : ℕ) → List ℕ → Type 0
IsAnswer seq bytes =
    let rxb = of_list (take 2048 bytes) in
    (16 ≤ length (take 2048 bytes))
    × (msg_magic rxb 0 ≡ nb_magic)
    × (msg_cmd rxb 0 ≡ nb_cmd_status)
    × (msg_seq rxb 0 ≡ seq)

-- `k` queries under the numbers behind `seq`, in front of `log`.
abbrev pub queries : (name : List ℕ) → (k : ℕ) → Query → Query
queries name zero q = q
queries name (suc k) q = queries name k (queried name q)

-- One of the rounds brought this datagram from `peer`.
abbrev pub Brought : (bytes : List ℕ) → (peer : ℕ) → List Round → Type 0
Brought bytes peer [] = ⊥
Brought bytes peer (r ∷ rs) =
    ((r.datagram ≡ bytes) × (r.sender ≡ peer) × (r.connects ≡ true)) ⊎ Brought bytes peer rs

abbrev pub Found : (name : List ℕ) → List Round → (q : Query) → (peer : ℕ) → (q' : Query) → Type 0
Found name rs q peer q' =
    (k : ℕ) × (bytes : List ℕ) × (q' ≡ queries name k q)
    × IsAnswer q'.seq bytes
    × Brought bytes peer rs
