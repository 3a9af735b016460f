-- ===== src/Protocol/Packets.antt =====
-- common.py, commands.py and response.py: the packets. The classes that only group others for type
-- hints (`Command`, `ControllerCommand`, `ReplicaCommand`, `Response`, `ResponseHeader`, …) have no
-- constructor of their own. A `memoryview` is the bytes that it shows.
use pylogstream.Prelude.{Bool, List, Option, ℤ}
use pylogstream.Text.{Text, Bytes}

-- `Packet.header` is `None` or a `PacketHeader(correlation_id)`.
pub record Packet {ℓ} (A : Type ℓ) : Type ℓ where
  pub header : Option Text
  pub body : A

pub data Command : Type 0 where
  register : Command
  client_id : Text → Command
  publish : (topic : Text) (payload : Bytes) (acks : ℤ) (contains_checksum : Bool) → Command
  fetch_offset : Text → Command
  pull : (topic : Text) (offset size : ℤ) → Command
  subscribe : Text → Command
  commit_offset : (topic : Text) (offset acks : ℤ) → Command
  ping : Command
  replica_fetch : (topic : Text) (offset size : ℤ) (replica_id : Text) → Command
  register_topic : Text → Command
  metadata_request : Text → Command
  broker_register : (broker_id host : Text) (port : ℤ) → Command
  controller_ping : Text → Command
  broker_metadata_list : Text → Command
  isr_change : (topic : Text) (isr_list : List Text) → Command

-- `TopicMetaDataResponse`. Its field `state` is not sent and never read.
pub record TopicMetaData : Type 0 where
  pub topic : Text
  pub leader_id : Text
  pub leader_addr : Text
  pub leader_port : ℤ
  pub replica_list : List Text
  pub version : ℤ

-- `ReplicaFetchHeaderResponse`, and the fields that its three subclasses inherit.
pub record FetchHeader : Type 0 where
  pub topic : Text
  pub log_end_offset : ℤ
  pub high_watermark : ℤ
  pub payload_length : ℤ

pub data Response : Type 0 where
  client_id : Text → Response
  ping : Response
  offset_ack : (topic : Text) (offset acks : ℤ) → Response
  pub_ack : (topic : Text) (offset acks : ℤ) → Response
  fetch_offset : (topic : Text) (offset : ℤ) → Response
  error : (code : ℤ) (message : Text) → Response
  message_header : (topic : Text) (length : ℤ) → Response
  message : (topic : Text) (payload : Bytes) → Response
  file : (topic file_path : Text) (offset length : ℤ) → Response
  mmap : (topic : Text) (buffer : Bytes) → Response
  replica_fetch_header : FetchHeader → Response
  replica_fetch_bytes : FetchHeader → (payload : Bytes) → Response
  replica_fetch_mmap : FetchHeader → (buffer : Bytes) → Response
  replica_fetch_file : FetchHeader → (file_path : Text) (offset length : ℤ) → Response
  topic_meta_data : TopicMetaData → Response
  topic_meta_data_list_header : (payload_length : ℤ) → Response
  topic_meta_data_list : List TopicMetaData → Response
  controller_ping : Response
  not_leader_controller : (leader_id leader_host : Text) (leader_port : ℤ) → Response

-- `EncodedFrame` of encoder.py.
pub record EncodedFrame : Type 0 where
  pub header : Bytes
  pub payload : Option Bytes
  pub file_path : Option Text
  pub offset : Option ℤ
  pub length : Option ℤ
