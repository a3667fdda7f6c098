-- ===== src/Broker/Protocol.antt =====
-- broker/include/broker/protocol.hpp, and `encode_ack` and `encode_error` of
-- broker/request_handler.cpp. The request structs are packed: a request is read from the bytes of the
-- frame's payload at its fields' positions. The positions after the topic's 255 bytes are the same in
-- all of them.
use fell.Base.{ℕ, ◌-◌, min, List, [], ◌∷◌, ◌++◌, length, take, drop, replicate}
use Prim.Native.Char.{code}
use Prim.Native.String.{String}
use fell.Wire.{byte_at, read_be16, write_be64}
use fell.Frame.{encode_frame}

-- The opcodes.
abbrev pub op_create_topic : ℕ
op_create_topic = 1

abbrev pub op_publish : ℕ
op_publish = 2

abbrev pub op_subscribe : ℕ
op_subscribe = 3

abbrev pub op_fetch : ℕ
op_fetch = 4

abbrev pub op_publish_v2 : ℕ
op_publish_v2 = 6

abbrev pub op_metadata_req : ℕ
op_metadata_req = 7

abbrev pub op_ack : ℕ
op_ack = 16

abbrev pub op_err : ℕ
op_err = 17

abbrev pub op_fetch_response : ℕ
op_fetch_response = 18

abbrev pub op_metadata_resp : ℕ
op_metadata_resp = 19

pub data ErrCode : Type 0 where
  unknown_topic unknown_partition invalid_offset unknown_op malformed_request busy internal_error
        not_leader metadata_unavailable :
      ErrCode

abbrev pub err_byte : ErrCode → ℕ
err_byte unknown_topic = 1
err_byte unknown_partition = 2
err_byte invalid_offset = 3
err_byte unknown_op = 4
err_byte malformed_request = 5
err_byte busy = 6
err_byte internal_error = 7
err_byte not_leader = 8
err_byte metadata_unavailable = 9

-- The characters of a message or a host name.
abbrev pub codes : String → List ℕ
codes String.[] = []
codes (String.◌∷◌ c s) = code c ∷ codes s

-- `encode_ack`
unfoldable pub encode_ack : ℕ → List ℕ
unfolding encode_frame write_be64
encode_ack value = encode_frame op_ack (write_be64 value)

-- `encode_error`: a message of more than 255 bytes is cut, and a shorter one is padded.
unfoldable pub encode_error : ErrCode → List ℕ → List ℕ
unfolding encode_frame
encode_error code text =
    encode_frame op_err
      (err_byte code ∷ min (length text) 255 ∷ (take 255 text ++ replicate (255 - length text) 0))

-- The fields that requests share: `std::string(req->topic, req->topic_len)` and the partition.
abbrev pub topic_of : List ℕ → List ℕ
topic_of payload = take (byte_at payload 0) (drop 1 payload)

unfoldable pub partition_of : List ℕ → ℕ
unfolding read_be16
partition_of payload = read_be16 (drop 256 payload)

-- `sizeof` of the request structs.
abbrev pub size_create_topic : ℕ
size_create_topic = 258

abbrev pub size_metadata : ℕ
size_metadata = 256

abbrev pub size_publish : ℕ
size_publish = 262

abbrev pub size_publish_v2 : ℕ
size_publish_v2 = 518

abbrev pub size_subscribe : ℕ
size_subscribe = 266

abbrev pub size_fetch : ℕ
size_fetch = 268
