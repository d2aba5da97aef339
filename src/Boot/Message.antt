-- ===== src/Boot/Message.antt =====
-- tools/netboot.h: the messages of the boot protocol, as places in a byte memory.
use os_workshop.Base.{ℕ, ◌+◌, Memory, rd32, wr32}

abbrev pub nb_port_query : ℕ
nb_port_query = 58571

abbrev pub nb_port_ctrl : ℕ
nb_port_ctrl = 58572

abbrev pub nb_magic : ℕ
nb_magic = 0x1e5dae11

abbrev pub nb_cmd_query : ℕ
nb_cmd_query = 0x56a938e6

abbrev pub nb_cmd_write : ℕ
nb_cmd_write = 0x7b639621

abbrev nb_cmd_read : ℕ
nb_cmd_read = 0x1c1d1ecf

abbrev pub nb_cmd_exec : ℕ
nb_cmd_exec = 0xbdb9a844

abbrev pub nb_cmd_status : ℕ
nb_cmd_status = 0x9e68e03b

abbrev nb_cmd_syslog : ℕ
nb_cmd_syslog = 0x5a374503

abbrev pub nb_ok : ℕ
nb_ok = 0

abbrev pub nb_err_badcmd : ℕ
nb_err_badcmd = 1

abbrev nb_err_param : ℕ
nb_err_param = 2

abbrev pub nb_msg_min : ℕ
nb_msg_min = 16

abbrev pub nb_msg_max : ℕ
nb_msg_max = 1040

abbrev pub nb_data_max : ℕ
nb_data_max = 1024

-- The fields of a `netboot_msg_t` at `msg`.
abbrev pub msg_magic : Memory → ℕ → ℕ
msg_magic m msg = rd32 m msg

abbrev pub msg_cmd : Memory → ℕ → ℕ
msg_cmd m msg = rd32 m (msg + 4)

abbrev pub msg_seq : Memory → ℕ → ℕ
msg_seq m msg = rd32 m (msg + 8)

abbrev pub msg_arg : Memory → ℕ → ℕ
msg_arg m msg = rd32 m (msg + 12)

-- `msg->cmd = cmd; msg->arg = arg;`
abbrev pub set_cmd_arg : Memory → ℕ → (cmd arg : ℕ) → Memory
set_cmd_arg m msg cmd arg = wr32 (wr32 m (msg + 4) cmd) (msg + 12) arg
