-- ===== src/Protocol/Direct.antt =====
-- write.go: the requests that are written without building their data structures.
pub mod Optimised
use kafka_go.Prelude.{ℕ, ◌+◌, ◌-◌, ◌^◌, List, [], ◌∷◌, ◌++◌, ℤ, length}
use kafka_go.Time.{milliseconds, int32_of}
use kafka_go.Wire.Write.{write_int8, write_int32, write_int64, write_string, write_array_len}
use kafka_go.Wire.Size.{◌⊕◌, sizeof_string}
use kafka_go.Protocol.Frame.{frame_header}

-- protocol.go: the api keys and versions that are used below, and -1 as an int32.
abbrev pub fetch_request : ℕ
fetch_request = 1

abbrev pub list_offset_request : ℕ
list_offset_request = 2

abbrev pub minus_one : ℕ
minus_one = 2 ^ 32 - 1

unfoldable pub write_fetch_request_v2 : ℕ → List ℕ → List ℕ → ℕ → ℕ → ℤ → ℤ → ℤ → List ℕ
write_fetch_request_v2 id client topic partition offset min_bytes max_bytes max_wait =
    frame_header fetch_request 2 id client (4 + 4 + 4 + 4 ⊕ sizeof_string topic ⊕ 4 ⊕ 4 ⊕ 8 ⊕ 4)
    ++ (write_int32 minus_one
        ++ (write_int32 (milliseconds max_wait)
            ++ (write_int32 (int32_of min_bytes)
                ++ (write_array_len 1
                    ++ (write_string topic
                        ++ (write_array_len 1
                            ++ (write_int32 partition
                                ++ (write_int64 offset ++ write_int32 (int32_of max_bytes)))))))))

-- What writeFetchRequestV5 writes behind the header.
unfoldable pub fetch_body_v5 : List ℕ → ℕ → ℕ → ℤ → ℤ → ℤ → ℕ → List ℕ
fetch_body_v5 topic partition offset min_bytes max_bytes max_wait isolation =
    write_int32 minus_one
    ++ (write_int32 (milliseconds max_wait)
        ++ (write_int32 (int32_of min_bytes)
            ++ (write_int32 (int32_of max_bytes)
                ++ (write_int8 isolation
                    ++ (write_array_len 1
                        ++ (write_string topic
                            ++ (write_array_len 1
                                ++ (write_int32 partition
                                    ++ (write_int64 offset
                                        ++ (write_int64 0
                                            ++ write_int32 (int32_of max_bytes)))))))))))

unfoldable pub write_fetch_request_v5 : ℕ → List ℕ → List ℕ → ℕ → ℕ → ℤ → ℤ → ℤ → ℕ → List ℕ
write_fetch_request_v5 id client topic partition offset min_bytes max_bytes max_wait isolation =
    frame_header fetch_request 5 id client
      (4 + 4 + 4 + 4 + 1 + 4 ⊕ sizeof_string topic ⊕ 4 ⊕ 4 ⊕ 8 ⊕ 8 ⊕ 4)
    ++ fetch_body_v5 topic partition offset min_bytes max_bytes max_wait isolation

unfoldable pub write_list_offset_request_v1 : ℕ → List ℕ → List ℕ → ℕ → ℕ → List ℕ
write_list_offset_request_v1 id client topic partition time =
    frame_header list_offset_request 1 id client (4 + 4 ⊕ sizeof_string topic ⊕ 4 ⊕ 4 ⊕ 8)
    ++ (write_int32 minus_one
        ++ (write_array_len 1
            ++ (write_string topic
                ++ (write_array_len 1 ++ (write_int32 partition ++ write_int64 time)))))
