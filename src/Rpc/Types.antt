-- ===== src/Rpc/Types.antt =====
-- The packages of the RPC filter and the buffer that its tests read: ebpf/include/protocol.h.
use erda_agent.Base.{ℕ, List, ◌∷◌, ◌++◌, ltb, if◌then◌else◌, u8, sub32, replicate, get_or}
use erda_agent.Packet.{Skb, SkbInfo}
use erda_agent.Packet.Buffer.{read_into_buffer}

-- `enum package_phase`
pub data PackagePhase : Type 0 where
  p_unknown p_request p_response : PackagePhase

-- `rpc_status_t`
pub data RpcStatus : Type 0 where
  payload_undetermined payload_grpc payload_not_grpc payload_dubbo : RpcStatus
  payload_mysql payload_redis payload_kafka payload_amqp : RpcStatus

-- `enum eth_ip_type`
pub data EthIpType : Type 0 where
  eth_type_ipv4 eth_type_ipv6 : EthIpType

pub record RpcPackage : Type 0 where
  pub rpc_type : RpcStatus
  pub phase : PackagePhase
  pub ip_type : EthIpType
  pub dst_ip : ℕ
  pub dst_port : ℕ
  pub src_ip : ℕ
  pub src_port : ℕ
  pub seq : ℕ
  pub duration : ℕ
  pub pid : ℕ
  pub path_len : ℕ
  pub path : List ℕ
  pub status : List ℕ
  pub dubbo_status : ℕ
  pub mysql_status : ℕ
  pub mysql_msg : List ℕ

abbrev pub max_http2_path_content_length : ℕ
max_http2_path_content_length = 100

abbrev pub classification_max_buffer : ℕ
classification_max_buffer = 24

abbrev pub zero_package : RpcPackage
zero_package = record {
  rpc_type = payload_undetermined;
  phase = p_unknown;
  ip_type = eth_type_ipv4;
  dst_ip = 0;
  dst_port = 0;
  src_ip = 0;
  src_port = 0;
  seq = 0;
  duration = 0;
  pid = 0;
  path_len = 0;
  path = replicate max_http2_path_content_length 0;
  status = replicate 1 0;
  dubbo_status = 0;
  mysql_status = 0;
  mysql_msg = replicate 10 0;
}

-- `classification_buffer_t`
pub record ClassificationBuffer : Type 0 where
  pub data_bytes : List ℕ
  pub size : ℕ

-- `__init_buffer`
unfoldable pub init_buffer : Skb → SkbInfo → ClassificationBuffer
unfolding read_into_buffer
init_buffer skb info =
    let payload_length = sub32 skb.len info.data_off in
    record {
      data_bytes =
          read_into_buffer max_http2_path_content_length skb info.data_off
            (replicate max_http2_path_content_length 0);
      size =
          if ltb payload_length max_http2_path_content_length
          then payload_length
          else max_http2_path_content_length;
    }

-- The memory from `&buffer.data[0]` on: the tests read up to five bytes past the data, into the
-- padding and the lowest byte of the size.
unfoldable pub memory : ClassificationBuffer → List ℕ
memory b = b.data_bytes ++ (replicate 4 0 ++ (u8 b.size ∷ replicate 7 0))

-- `buf[i]`
abbrev pub byte_at : List ℕ → ℕ → ℕ
byte_at buf i = get_or buf i 0
