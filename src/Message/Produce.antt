-- ===== src/Message/Produce.antt =====
-- write.go: the Produce requests in the versions 2 and 3. A codec is `none` where messages are not
-- compressed; a result is `none` where the write does not come back, and else the bytes or the error
-- of the codec.
use mathlib.Core.Option
use kafka_go.Prelude.{
  ℕ, ◌+◌, ◌-◌, ◌%◌, ◌^◌, ◌≡◌, ap, ◌∙◌, List, [], ◌∷◌, ◌++◌, Option, none, some, ℤ, length, arith,
  length-append,
}
use kafka_go.Time.{milliseconds}
use kafka_go.Wire.Write.{write_int16, write_int32, write_string, write_array_len}
use kafka_go.Wire.Size.{◌⊕◌, sizeof_string}
use kafka_go.Wire.Sizes.{Sizes, sizes}
use kafka_go.Protocol.Frame.{frame_header, frame, header_fields, frame_header-frame}
use kafka_go.Message.{Message}
use kafka_go.Message.Compression.{Codec}
use kafka_go.Message.Encode.{compress, message_set_size, write_messages, message_set_size-Sizes}
use kafka_go.Message.Record.{
  write_records, record_batch_size, record_batch_header_size, write_record_batch, batch_bytes,
}
use kafka_go.Message.Record.Length.{Sized, record_batch_size-Sized, length-batch_bytes}

abbrev pub produce_request : ℕ
produce_request = 0

-- The error of `codec.Encode` is the only one.
pub data Written : Type 0 where
  sent : List ℕ → Written
  codec_failed : Written

-- What both versions write of the request ahead of the messages.
unfoldable pub produce_fields : List ℕ → ℕ → ℤ → ℕ → ℕ → List ℕ
produce_fields topic partition timeout acks size =
    write_int16 acks
    ++ (write_int32 (milliseconds timeout)
        ++ (write_array_len 1
            ++ (write_string topic
                ++ (write_array_len 1 ++ (write_int32 partition ++ write_int32 size)))))

module _ (id : ℕ) (client topic : List ℕ) (partition : ℕ) (timeout : ℤ) (acks : ℕ) where
  -- The request for a message set.
  unfoldable pub produce_set : ℕ → List Message → List ℕ
  produce_set attributes msgs =
      let size = message_set_size msgs in
      frame_header produce_request 2 id client (2 + 4 + 4 ⊕ sizeof_string topic ⊕ 4 ⊕ 4 ⊕ 4 ⊕ size)
      ++ (produce_fields topic partition timeout acks size ++ write_messages attributes msgs)

  unfoldable pub write_produce_request_v2 : Option Codec → List Message → Written
  write_produce_request_v2 none msgs = sent (produce_set 0 msgs)
  write_produce_request_v2 (some codec) msgs = elim (compress codec msgs) [
    | none ↦ codec_failed
    | some set ↦ sent (produce_set codec.code set)
  ]

  -- The request for a record batch of the announced size.
  unfoldable pub produce_batch : ℕ → List ℕ → List ℕ
  produce_batch size batch =
      frame_header produce_request 3 id client
        (2 + 2 + 4 + 4 ⊕ sizeof_string topic ⊕ 4 ⊕ 4 ⊕ 4 ⊕ size)
      ++ (write_int16 (2 ^ 16 - 1) ++ (produce_fields topic partition timeout acks size ++ batch))

  -- The batch is written, of the records that the callback writes, or does not come back.
  unfoldable pub send_batch : ℕ → ℕ → Option (List ℕ) → List Message → Option Written
  send_batch attributes size records msgs =
      Option.map (λ batch. sent (produce_batch size batch))
        (write_record_batch attributes size records msgs)

  -- `recordBatchHeaderSize() + int32(len(compressed))`
  abbrev pub compressed_size : List ℕ → ℕ
  compressed_size compressed = record_batch_header_size ⊕ length compressed % 2 ^ 32

  unfoldable pub write_produce_request_v3 : Option Codec → List Message → Option Written
  write_produce_request_v3 codec [] = none
  write_produce_request_v3 none (first ∷ msgs) =
      Option.bind (record_batch_size (first ∷ msgs))
        λ size. send_batch 0 size (write_records first.time 0 (first ∷ msgs)) (first ∷ msgs)
  write_produce_request_v3 (some codec) (first ∷ msgs) =
      Option.bind (record_batch_size (first ∷ msgs)) λ _.
        Option.bind (write_records first.time 0 (first ∷ msgs)) λ records.
          elim (codec.encode records) [
            | none ↦ some codec_failed
            | some compressed ↦
                send_batch codec.code (compressed_size compressed) (some compressed) (first ∷ msgs)
          ]

  pub produce_set-frame :
      (attributes : ℕ) (msgs : List Message)
      → produce_set attributes msgs
        ≡ frame (
            header_fields produce_request 2 id client
            ++ (produce_fields topic partition timeout acks (message_set_size msgs)
                ++ write_messages attributes msgs))
  unfolding produce_set produce_fields
  produce_set-frame attributes msgs =
      frame_header-frame produce_request 2 id _ client _
        (omega (sizes, message_set_size-Sizes attributes msgs))

  -- The request of version 3 with the batch, behind its length.
  abbrev pub batch_frame : List ℕ → List ℕ
  batch_frame batch = frame (
      header_fields produce_request 3 id client
      ++ (write_int16 (2 ^ 16 - 1)
          ++ (produce_fields topic partition timeout acks (length batch % 2 ^ 32) ++ batch)))

  produce_batch-frame :
      (size : ℕ) (batch : List ℕ) → Sizes size batch → produce_batch size batch ≡ batch_frame batch
  unfolding produce_batch produce_fields
  produce_batch-frame size batch h =
      frame_header-frame produce_request 3 id _ client _ (
        omega (
          sizes,
          h,
          length-append (write_int16 (2 ^ 16 - 1))
              (produce_fields topic partition timeout acks size ++ batch),
        ))
      ∙ ap
          (λ (n : ℕ). frame (
            header_fields produce_request 3 id client
            ++ (write_int16 (2 ^ 16 - 1)
                ++ (produce_fields topic partition timeout acks n ++ batch))))
          h

  -- The batch of the records `rs`, with its size.
  abbrev pub whole_batch : ℕ → Message → List Message → List ℕ → List ℕ
  whole_batch attributes first msgs rs =
      batch_bytes attributes ((61 + length rs) % 2 ^ 32) first msgs rs

  whole_batch-frame :
      (attributes : ℕ) (first : Message) (msgs : List Message) (rs : List ℕ)
      → send_batch attributes ((61 + length rs) % 2 ^ 32) (some rs) (first ∷ msgs)
        ≡ some (sent (batch_frame (whole_batch attributes first msgs rs)))
  unfolding send_batch write_record_batch
  whole_batch-frame attributes first msgs rs =
      ap (λ (bs : List ℕ). some (sent bs))
        (produce_batch-frame ((61 + length rs) % 2 ^ 32) (whole_batch attributes first msgs rs)
          (omega (arith, length-batch_bytes attributes ((61 + length rs) % 2 ^ 32) first msgs rs)))

  size_of :
      (n : Option ℕ) (first : Message) (msgs : List Message) (rs : List ℕ)
      → Sized n (some (batch_bytes 0 0 first msgs rs))
      → n ≡ some ((61 + length rs) % 2 ^ 32)
  size_of none first msgs rs h = absurd h
  size_of (some n) first msgs rs h =
      ap some (omega (arith, h, length-batch_bytes 0 0 first msgs rs))

  batch_size :
      (first : Message) (msgs : List Message) (rs : List ℕ)
      → write_records first.time 0 (first ∷ msgs) ≡ some rs
      → record_batch_size (first ∷ msgs) ≡ some ((61 + length rs) % 2 ^ 32)
  unfolding write_record_batch
  batch_size first msgs rs e =
      size_of _ first msgs rs (rw e at (record_batch_size-Sized 0 0 first msgs))

  -- Where the records of a batch can be written, writeProduceRequestV3 without a codec writes one
  -- frame: the announced length is that of what follows, and the announced size of the record batch
  -- that of the batch, which holds these records.
  pub write_produce_request_v3-frame :
      (first : Message) (msgs : List Message) (rs : List ℕ)
      → write_records first.time 0 (first ∷ msgs) ≡ some rs
      → write_produce_request_v3 none (first ∷ msgs)
        ≡ some (sent (batch_frame (whole_batch 0 first msgs rs)))
  unfolding write_produce_request_v3 Option.bind
  write_produce_request_v3-frame first msgs rs e =
      rw (batch_size first msgs rs e, e) (whole_batch-frame 0 first msgs rs)

  pub write_produce_request_v3-compressed :
      (codec : Codec) (first : Message) (msgs : List Message) (rs compressed : List ℕ)
      → write_records first.time 0 (first ∷ msgs) ≡ some rs
      → codec.encode rs ≡ some compressed
      → write_produce_request_v3 (some codec) (first ∷ msgs)
        ≡ some (sent (batch_frame (whole_batch codec.code first msgs compressed)))
  unfolding write_produce_request_v3 Option.bind record_batch_header_size ◌⊕◌
  write_produce_request_v3-compressed codec first msgs rs compressed e c =
      let n : compressed_size compressed ≡ (61 + length compressed) % 2 ^ 32 = omega arith in
      rw (batch_size first msgs rs e, e, c)
        (ap (λ (n : ℕ). send_batch codec.code n (some compressed) (first ∷ msgs)) n
          ∙ whole_batch-frame codec.code first msgs compressed)
