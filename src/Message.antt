-- ===== src/Message.antt =====
-- The records of comm_i.h that travel through the library: the message header and its layout in
-- memory, which is also its form on the wire, the client and server handles, and the message.
pub mod Wire
use comm_system.Prelude.{
  ℕ, zero, suc, ◌+◌, ◌*◌, ◌/◌, ◌%◌, ◌^◌, ◌<◌, Option, none, some, List, [], ◌∷◌, ◌++◌, take, drop,
  ◌==◌, if◌then◌else◌,
}

pub data CommType : Type 0 where
  comm_tcp comm_unix : CommType

-- comm_msg_type_t, an int of which the library reads and writes the bytes only.
pub data CommMsgType : Type 0 where
  comm_dm_msg_snap comm_dm_msg_start comm_fu_msg_start comm_orch_stats_msg_start : CommMsgType
  comm_orch_stats_msg_end comm_orch_stats_msg_get comm_dump_stats_msg comm_sfp_getattr : CommMsgType
  comm_sfp_setattr comm_sfp_read comm_sfp_write comm_sfp_unlink : CommMsgType
  comm_sfp_compound_getattr : CommMsgType

abbrev pub code_of : CommMsgType → ℕ
code_of comm_dm_msg_snap = 0
code_of comm_dm_msg_start = 1
code_of comm_fu_msg_start = 2
code_of comm_orch_stats_msg_start = 3
code_of comm_orch_stats_msg_end = 4
code_of comm_orch_stats_msg_get = 5
code_of comm_dump_stats_msg = 6
code_of comm_sfp_getattr = 7
code_of comm_sfp_setattr = 8
code_of comm_sfp_read = 9
code_of comm_sfp_write = 10
code_of comm_sfp_unlink = 11
code_of comm_sfp_compound_getattr = 12

-- `padding` stands for the four bytes that align `msg_len` on a 64-bit machine.
pub record CommMsgHeader : Type 0 where
  pub msg_type : ℕ
  pub padding : ℕ
  pub msg_len : ℕ
  pub msg_write_len : ℕ

-- sizeof(comm_msg_header_t)
abbrev pub header_size : ℕ
header_size = 24

-- A number of `k` bytes in memory, the low byte first, and back.
abbrev pub le_bytes : ℕ → ℕ → List ℕ
le_bytes zero v = []
le_bytes (suc k) v = v % 256 ∷ le_bytes k (v / 256)

abbrev pub le_value : List ℕ → ℕ
le_value [] = 0
le_value (b ∷ bytes) = b + 256 * le_value bytes

-- The bytes at `&comm_msg->msg_header`, and the header that 24 bytes there make.
unfoldable pub encode : CommMsgHeader → List ℕ
encode h =
    le_bytes 4 h.msg_type
    ++ (le_bytes 4 h.padding ++ (le_bytes 8 h.msg_len ++ le_bytes 8 h.msg_write_len))

unfoldable pub decode : List ℕ → CommMsgHeader
decode bytes = record {
  msg_type = le_value (take 4 bytes);
  padding = le_value (take 4 (drop 4 bytes));
  msg_len = le_value (take 8 (drop 4 (drop 4 bytes)));
  msg_write_len = le_value (drop 8 (drop 4 (drop 4 bytes)));
}

-- The members fit their types.
pub record IsHeader (h : CommMsgHeader) : Type 0 where
  pub type_fits : h.msg_type < 2 ^ 32
  pub padding_fits : h.padding < 2 ^ 32
  pub len_fits : h.msg_len < 2 ^ 64
  pub write_len_fits : h.msg_write_len < 2 ^ 64

-- What a function pointer holds: a function of the library, or what `malloc` left there.
pub data Handler : Type 0 where
  tcp_client_send tcp_client_send_header tcp_client_send_data tcp_client_wait : Handler
  tcp_client_finish unix_client_send unix_client_wait unix_client_finish : Handler
  unix_servresp_send unix_servresp_send_header unix_servresp_send_data : Handler
  tcp_servresp_send tcp_servresp_send_header tcp_servresp_send_data : Handler
  null_handler : Handler
  stray : ℕ → Handler

-- Both members of the union have `socket_fd` at its start.
pub record CommClient : Type 0 where
  pub socket_fd : ℕ
  pub ipc_type : CommType
  pub comm_client_send : Handler
  pub comm_client_send_header : Handler
  pub comm_client_send_data : Handler
  pub comm_client_wait : Handler
  pub comm_client_finish : Handler

pub record CommServer : Type 0 where
  pub socket_fd : ℕ
  pub worker_index : ℕ
  pub ipc_type : CommType
  pub comm_servresp_send : Handler
  pub comm_servresp_send_header : Handler
  pub comm_servresp_send_data : Handler

-- `payload` is the object that `data` points to.
pub record CommMsg : Type 0 where
  pub msg_header : CommMsgHeader
  pub comm_server : CommServer
  pub comm_client : CommClient
  pub payload : Option (List ℕ)

-- The bytes at `data`; NULL has none.
abbrev pub bytes_of : Option (List ℕ) → List ℕ
bytes_of none = []
bytes_of (some bytes) = bytes

-- The length that a sender uses: `msg_len`, unless `msg_write_len` is set.
abbrev pub data_len : CommMsgHeader → ℕ
data_len h = if h.msg_write_len == 0 then h.msg_len else h.msg_write_len
