-- ===== src/Message/Encode.antt =====
-- write.go: messages in format 1, written without their data structures, and the compression of a
-- set of them. A codec is a parameter: compression packages are not part of the model.
use kafka_go.Prelude.{ℕ, ◌+◌, ◌≡◌, ap, List, [], ◌∷◌, ◌++◌, Option, none, some, arith}
use mathlib.Core.Option
use kafka_go.Wire.Bytes.{Slice}
use kafka_go.Wire.Write.{write_int8, write_int32, write_int64, write_bytes, write_items}
use kafka_go.Wire.Size.{◌⊕◌, sizeof_bytes, sizeof_items}
use kafka_go.Wire.Sizes.{Sizes, sizes, sizeof_items_lem}
use kafka_go.Time.{Time, timestamp}
use kafka_go.Message.{Message}
use kafka_go.Message.Compression.{Codec}
use kafka_go.Message.Crc.{crc32_of_message}
use kafka_go.Message.Raw.{
  write_item, write_message_raw, write_summed, to_item, to_raw, crc32, size_message,
}

unfoldable pub msg_size : Slice → Slice → ℕ
msg_size key value = 4 + 1 + 1 + 8 ⊕ sizeof_bytes key ⊕ sizeof_bytes value

unfoldable pub write_message : ℕ → ℕ → Time → Slice → Slice → List ℕ
write_message offset attributes time key value =
    write_int64 offset
    ++ (write_int32 (msg_size key value)
        ++ (write_int32 (crc32_of_message 1 attributes (timestamp time) key value)
            ++ (write_int8 1
                ++ (write_int8 attributes
                    ++ (write_int64 (timestamp time) ++ (write_bytes key ++ write_bytes value))))))

-- One round of messageSetSize.
unfoldable pub size_in_set : Message → ℕ
size_in_set msg = 8 + 4 + 4 + 1 + 1 + 8 ⊕ sizeof_bytes msg.key ⊕ sizeof_bytes msg.value

unfoldable pub message_set_size : List Message → ℕ
message_set_size msgs = sizeof_items 0 size_in_set msgs

-- The messages of a set, with their attributes.
unfoldable pub write_messages : ℕ → List Message → List ℕ
write_messages attributes msgs =
    write_items (λ (msg : Message). write_message msg.offset attributes msg.time msg.key msg.value)
      msgs

-- `for offset, msg := range msgs`, from an offset.
unfoldable pub write_numbered : ℕ → List Message → List ℕ
write_numbered n [] = []
write_numbered n (msg ∷ msgs) =
    write_message n 0 msg.time msg.key msg.value ++ write_numbered (n + 1) msgs

-- `Message{Value: compressed}`
abbrev pub container : List ℕ → Message
container value = record {
  topic = [];
  partition = 0;
  offset = 0;
  key = none;
  value = some value;
  headers = [];
  time = none;
}

unfoldable pub compress : Codec → List Message → Option (List Message)
compress codec msgs =
    Option.map (λ compressed. container compressed ∷ []) (codec.encode (write_numbered 0 msgs))

size_in_set-Sizes :
    (attributes : ℕ) (msg : Message)
    → Sizes (size_in_set msg) (write_message msg.offset attributes msg.time msg.key msg.value)
unfolding size_in_set write_message
size_in_set-Sizes attributes msg = omega sizes

-- messageSetSize announces the number of bytes that the messages are written as.
pub message_set_size-Sizes :
    (attributes : ℕ) (msgs : List Message)
    → Sizes (message_set_size msgs) (write_messages attributes msgs)
unfolding message_set_size write_messages
message_set_size-Sizes attributes msgs =
    omega
      (arith, sizeof_items_lem size_in_set _ (size_in_set-Sizes attributes) 0 msgs (omega arith))

-- The bytes that writeMessage writes of a message are those of its messageSetItem, with the sizes
-- and the checksum that the data structures announce.
pub write_message-write_item :
    (msg : Message)
    → write_message msg.offset 0 msg.time msg.key msg.value ≡ write_item (to_item msg)
unfolding write_message write_item to_item to_raw write_message_raw write_summed crc32 size_message
    msg_size
write_message-write_item msg =
    ap
      (λ (n : ℕ).
        write_int64 msg.offset
        ++ (write_int32 n
            ++ (write_int32 (crc32_of_message 1 0 (timestamp msg.time) msg.key msg.value)
                ++ (write_int8 1
                    ++ (write_int8 0
                        ++ (write_int64 (timestamp msg.time)
                            ++ (write_bytes msg.key ++ write_bytes msg.value)))))))
      (omega sizes)
