-- ===== src/Tests/DeviceTreeTests.antt =====
-- A blob with two nodes and two properties.
use os_workshop.Base.{ℕ, ◌≡◌, some, List, [], ◌∷◌, of_list, of_list-IsBytes, arith, refl}
use os_workshop.DeviceTree.{fdt_walk, node_line, text_line, bytes_line, end_line}
use os_workshop.DeviceTree.Format.{Items, none_left, filler, text_prop, bytes_prop, node, Holds}
use os_workshop.Boot.Console.Defs.{same_text}
use os_workshop.DeviceTree.Printed.{fdt_walk_lem}

abbrev blob : List ℕ
blob =
    208 ∷ 13 ∷ 254 ∷ 237 ∷ 0 ∷ 0 ∷ 0 ∷ 118 ∷ 0 ∷ 0 ∷ 0 ∷ 40 ∷ 0 ∷ 0 ∷ 0 ∷ 108 ∷ 0 ∷ 0 ∷ 0 ∷ 0 ∷ 0
    ∷ 0 ∷ 0 ∷ 17 ∷ 0 ∷ 0 ∷ 0 ∷ 16 ∷ 0 ∷ 0 ∷ 0 ∷ 0 ∷ 0 ∷ 0 ∷ 0 ∷ 10 ∷ 0 ∷ 0 ∷ 0 ∷ 68 ∷ 0 ∷ 0 ∷ 0 ∷ 1
    ∷ 0 ∷ 0 ∷ 0 ∷ 0 ∷ 0 ∷ 0 ∷ 0 ∷ 3 ∷ 0 ∷ 0 ∷ 0 ∷ 5 ∷ 0 ∷ 0 ∷ 0 ∷ 0 ∷ 113 ∷ 101 ∷ 109 ∷ 117 ∷ 0 ∷ 0
    ∷ 0 ∷ 0 ∷ 0 ∷ 0 ∷ 0 ∷ 4 ∷ 0 ∷ 0 ∷ 0 ∷ 1 ∷ 99 ∷ 112 ∷ 117 ∷ 0 ∷ 0 ∷ 0 ∷ 0 ∷ 3 ∷ 0 ∷ 0 ∷ 0 ∷ 4 ∷ 0
    ∷ 0 ∷ 0 ∷ 6 ∷ 0 ∷ 0 ∷ 0 ∷ 1 ∷ 0 ∷ 0 ∷ 0 ∷ 2 ∷ 0 ∷ 0 ∷ 0 ∷ 2 ∷ 0 ∷ 0 ∷ 0 ∷ 9 ∷ 109 ∷ 111 ∷ 100
    ∷ 101 ∷ 108 ∷ 0 ∷ 114 ∷ 101 ∷ 103 ∷ 0 ∷ []

abbrev model_name : List ℕ
model_name = b'm' ∷ b'o' ∷ b'd' ∷ b'e' ∷ b'l' ∷ []

abbrev qemu : List ℕ
qemu = b'q' ∷ b'e' ∷ b'm' ∷ b'u' ∷ []

abbrev cpu : List ℕ
cpu = b'c' ∷ b'p' ∷ b'u' ∷ []

abbrev reg : List ℕ
reg = b'r' ∷ b'e' ∷ b'g' ∷ []

abbrev tree : Items
tree =
    node []
      (text_prop 0 model_name qemu 0
        (filler (node cpu (bytes_prop 6 reg (0 ∷ 0 ∷ 0 ∷ 1 ∷ []) none_left) none_left)))
      none_left

blob-Holds : Holds (of_list blob) 108 tree 40
unfolding same_text
blob-Holds = ground arith

fdt_walk_lem_example :
    fdt_walk 20 (of_list blob) 0
    ≡ some (
        node_line 0 []
        ∷ text_line 1 model_name 5 qemu
        ∷ node_line 1 cpu
        ∷ bytes_line 2 reg 4 (0 ∷ 0 ∷ 0 ∷ 1 ∷ [])
        ∷ end_line
        ∷ [])
fdt_walk_lem_example =
    fdt_walk_lem (of_list blob) 0 12 tree (of_list-IsBytes blob (omega arith)) (omega arith)
      (omega arith) blob-Holds refl (omega arith)
