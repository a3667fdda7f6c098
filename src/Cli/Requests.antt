-- ===== src/Cli/Requests.antt =====
-- The requests that cli/producer_cli.cpp and cli/consumer_cli.cpp send: the packed structs of
-- broker/include/broker/protocol.hpp, cleared and filled in, and what the broker reads from their bytes.
use fell.Base.{
  ℕ, suc, false, ◌+◌, ◌-◌, ◌%◌, ◌^◌, ◌≤◌, ◌<◌, ◌≡◌, refl, sym, ap, ap₂, ◌∙◌, List, [], ◌∷◌, ◌++◌,
  Option, none, some, length, take, drop, ltb, true, ◌&&◌, if◌then◌else◌, replicate, get_or-drop,
  length-append, length-replicate, append_assoc, take-append_self, drop-append_self, drop-drop,
  arith,
}
use fell.Wire.{
  byte_at, read_be16, read_be32, read_be64, write_be16, write_be32, write_be64,
  read_be16-write_be16, read_be32-write_be32, length-write_be32, read_be64-write_be64,
}
use fell.Broker.Protocol.{topic_of, partition_of, size_fetch, size_publish_v2}

-- A text in a cleared array of a size.
abbrev pub field : ℕ → List ℕ → List ℕ
field size text = text ++ replicate (size - length text) 0

-- The length of a text, the array that holds it, and what follows in the struct.
abbrev pub text_field : List ℕ → List ℕ → List ℕ
text_field text rest = length text ∷ (field 255 text ++ rest)

-- `SubscribeReq`
unfoldable pub subscribe_request : List ℕ → ℕ → ℕ → List ℕ
unfolding write_be16 write_be64
subscribe_request topic partition offset =
    text_field topic (write_be16 partition ++ write_be64 offset)

-- `FetchReq`, for one message.
unfoldable pub fetch_request : List ℕ → ℕ → ℕ → List ℕ
unfolding write_be16 write_be64
fetch_request topic partition offset =
    text_field topic (write_be16 partition ++ (write_be64 offset ++ write_be16 1))

-- `CreateTopicReq`
unfoldable pub create_topic_request : List ℕ → ℕ → List ℕ
unfolding write_be16
create_topic_request topic partitions = text_field topic (write_be16 partitions)

-- `PublishV2Req` and the message behind it. The length of the key is cut to a byte, and where that is not
-- zero the whole key is copied into the array of 255 bytes: `none` where it does not fit.
unfoldable pub publish_request : List ℕ → ℕ → List ℕ → List ℕ → Option (List ℕ)
unfolding write_be16 write_be32
publish_request topic partition key payload =
    let key_len = length key % 256 in
    let copied = if ltb 0 key_len then key else [] in
    if ltb 0 key_len && ltb 255 (length key)
    then none
    else some (
        text_field topic (
          write_be16 partition
          ++ (key_len ∷ (field 255 copied ++ (write_be32 (length payload % 2 ^ 32) ++ payload)))))

length-field : (size : ℕ) (text : List ℕ) → length text ≤ size → length (field size text) ≡ size
length-field size text h = omega (
  arith,
  length-append text (replicate (size - length text) 0),
  length-replicate {A = ℕ} (size - length text) 0,
)

-- The broker reads a text of at most 255 bytes back, and what follows it stands behind 256 bytes.
pub topic_of-text_field :
    (text rest : List ℕ) → length text ≤ 255 → topic_of (text_field text rest) ≡ text
topic_of-text_field text rest h =
    ap (take (length text)) (append_assoc text (replicate (255 - length text) 0) rest)
    ∙ take-append_self (length text) text (replicate (255 - length text) 0 ++ rest) refl

pub drop-text_field :
    (text rest : List ℕ) → length text ≤ 255 → drop 256 (text_field text rest) ≡ rest
drop-text_field text rest h =
    drop-append_self 255 (field 255 text) rest (sym (length-field 255 text h))

pub length-text_field :
    (text rest : List ℕ) → length text ≤ 255 → length (text_field text rest) ≡ 256 + length rest
length-text_field text rest h =
    omega (arith, length-append (field 255 text) rest, length-field 255 text h)

pub drop-text_field_more :
    (k : ℕ) (text rest : List ℕ)
    → length text ≤ 255
    → drop (256 + k) (text_field text rest) ≡ drop k rest
drop-text_field_more k text rest h =
    sym (drop-drop k 256 (text_field text rest)) ∙ ap (drop k) (drop-text_field text rest h)

-- What `handle_fetch` reads of a fetch request.
pub record ReadsFetch (payload topic : List ℕ) (partition offset : ℕ) : Type 0 where
  pub long_enough : length payload ≡ size_fetch
  pub topic_read : topic_of payload ≡ topic
  pub partition_read : partition_of payload ≡ partition
  pub offset_read : read_be64 (drop 258 payload) ≡ offset
  pub one_message : read_be16 (drop 266 payload) ≡ 1

pub fetch_request-ReadsFetch :
    (topic : List ℕ) (partition offset : ℕ)
    → length topic ≤ 255
    → partition < 2 ^ 16
    → offset < 2 ^ 64
    → ReadsFetch (fetch_request topic partition offset) topic partition offset
unfolding fetch_request partition_of
fetch_request-ReadsFetch topic partition offset t p o =
    let rest = write_be16 partition ++ (write_be64 offset ++ write_be16 1) in
    record {
      long_enough = length-text_field topic rest t;
      topic_read = topic_of-text_field topic rest t;
      partition_read =
          ap read_be16 (drop-text_field topic rest t)
          ∙ read_be16-write_be16 partition (write_be64 offset ++ write_be16 1) p;
      offset_read =
          ap read_be64 (drop-text_field_more 2 topic rest t)
          ∙ read_be64-write_be64 offset (write_be16 1) o;
      one_message = ap read_be16 (drop-text_field_more 10 topic rest t);
    }

-- A key of more than 255 bytes overruns the array, unless its length is a multiple of 256.
publish_request_overruns :
    (topic : List ℕ) (partition : ℕ) (key payload : List ℕ)
    → 255 < length key
    → 0 < length key % 256
    → publish_request topic partition key payload ≡ none
unfolding publish_request
publish_request_overruns topic partition key payload long odd = ground (arith, long, odd)

-- What `handle_publish_v2` reads of a publish request.
pub record ReadsPublish (bytes topic : List ℕ) (partition : ℕ) (key payload : List ℕ) : Type 0 where
  pub whole : length bytes ≡ size_publish_v2 + length payload
  pub topic_read : topic_of bytes ≡ topic
  pub partition_read : partition_of bytes ≡ partition
  pub key_read : take (byte_at bytes 258) (drop 259 bytes) ≡ key
  pub size_read : read_be32 (drop 514 bytes) ≡ length payload
  pub payload_read : drop size_publish_v2 bytes ≡ payload

-- A key of at most 255 bytes fits.
publish_request_fits :
    (topic : List ℕ) (partition : ℕ) (key payload : List ℕ)
    → length key ≤ 255
    → length payload < 2 ^ 32
    → publish_request topic partition key payload
      ≡ some (
          text_field topic
            (write_be16 partition ++ text_field key (write_be32 (length payload) ++ payload)))
unfolding publish_request
publish_request_fits topic partition [] payload k s =
    let size : length payload % 2 ^ 32 ≡ length payload = omega (arith, s) in
    rw (publish_request, size) refl
publish_request_fits topic partition (c ∷ key) payload k s =
    let size : length payload % 2 ^ 32 ≡ length payload = omega (arith, s) in
    let byte : suc (length key) % 256 ≡ suc (length key) = omega (arith, k) in
    let fits : ltb 255 (suc (length key)) ≡ false = ground (arith, k) in
    let keyed : ltb 0 (suc (length key)) ≡ true = ground arith in
    rw (publish_request, byte, size, fits, keyed) refl

pub publish_request-ReadsPublish :
    (topic : List ℕ) (partition : ℕ) (key payload : List ℕ)
    → length topic ≤ 255
    → partition < 2 ^ 16
    → length key ≤ 255
    → length payload < 2 ^ 32
    → (bytes : List ℕ) × (publish_request topic partition key payload ≡ some bytes)
      × ReadsPublish bytes topic partition key payload
unfolding publish_request partition_of write_be16
publish_request-ReadsPublish topic partition key payload t p k s =
    let more = write_be32 (length payload) ++ payload in
    let rest = write_be16 partition ++ text_field key more in
    let bytes = text_field topic rest in
    let behind : drop 258 bytes ≡ text_field key more = drop-text_field_more 2 topic rest t in
    let last : drop 514 bytes ≡ more =
      sym (drop-drop 256 258 bytes) ∙ ap (drop 256) behind ∙ drop-text_field key more k in
    (
      bytes,
      publish_request_fits topic partition key payload k s,
      record {
        whole = omega (
          arith,
          length-text_field topic rest t,
          length-text_field key more k,
          length-append (write_be32 (length payload)) payload,
          length-write_be32 (length payload),
        );
        topic_read = topic_of-text_field topic rest t;
        partition_read =
            ap read_be16 (drop-text_field topic rest t)
            ∙ read_be16-write_be16 partition (text_field key more) p;
        key_read =
            ap₂ take (sym (get_or-drop 258 0 bytes 0) ∙ ap (λ b. byte_at b 0) behind)
              (sym (drop-drop 1 258 bytes) ∙ ap (drop 1) behind)
            ∙ topic_of-text_field key more k;
        size_read = ap read_be32 last ∙ read_be32-write_be32 (length payload) payload s;
        payload_read =
            sym (drop-drop 4 514 bytes)
            ∙ ap (drop 4) last
            ∙ drop-append_self 4 (write_be32 (length payload)) payload
                (sym (length-write_be32 (length payload)));
      },
    )
