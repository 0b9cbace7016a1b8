-- ===== src/Conn/Versions.antt =====
-- conn.go: the versions that the broker offers, and the exchanges of SASL, which depend on them.
use kafka_go.Prelude.{
  ℕ, Bool, ◌%◌, ◌^◌, List, [], ◌∷◌, ◌++◌, Option, none, some, ℤ, pos, negsuc, ltb_ℤ, not, length,
  ◌==◌, if◌then◌else◌,
}
use kafka_go.Wire.Bytes.{Slice, content, signed16, signed32}
use kafka_go.Wire.Write.{write_int32}
use kafka_go.Wire.Reader.{kafka, panics, Reader, Outcome, done, fail, pure, throw, ◌>>=◌, at}
use kafka_go.Wire.Read.{read_int16, read_int32, read_times, read_new_bytes}
use kafka_go.Protocol.Frame.{frame_header}
use kafka_go.Protocol.Exchange.{Reply, exchange}
use kafka_go.Protocol.Requests.{sasl_handshake_request_v0, sasl_authenticate_request_v0}
use kafka_go.Protocol.Sasl.{
  SaslHandshakeRequestV0, SaslHandshakeResponseV0, read_sasl_handshake_response_v0,
  SaslAuthenticateRequestV0, SaslAuthenticateResponseV0, read_sasl_authenticate_response_v0,
}
use kafka_go.Protocol.Operations.{Called, operation}
use kafka_go.Conn.{Conn, ApiVersion}

-- `apiVersions[key]`: the last one with the key, or the zero value.
unfoldable pub find_version : ApiVersion → ℕ → List ApiVersion → ApiVersion
find_version last key [] = last
find_version last key (v ∷ vs) = find_version (if v.api_key == key then v else last) key vs

abbrev pub no_version : ApiVersion
no_version = record { api_key = 0; min_version = 0; max_version = 0 }

unfoldable pub at_least : ℕ → ℕ → List ApiVersion → Bool
at_least version key vs =
    not (ltb_ℤ (signed16 ((find_version no_version key vs).max_version)) (pos version))

abbrev pub exactly : ℕ → ℕ → ApiVersion
exactly key version = record { api_key = key; min_version = version; max_version = version }

unfoldable pub default_api_versions : List ApiVersion
default_api_versions =
    exactly 0 2
    ∷ exactly 1 2
    ∷ exactly 2 1
    ∷ exactly 3 1
    ∷ exactly 8 2
    ∷ exactly 9 1
    ∷ exactly 10 0
    ∷ exactly 11 1
    ∷ exactly 12 0
    ∷ exactly 13 0
    ∷ exactly 14 0
    ∷ exactly 15 1
    ∷ exactly 16 1
    ∷ exactly 18 0
    ∷ exactly 19 0
    ∷ exactly 20 1
    ∷ []

-- Whether the map has a version of fetchRequest.
unfoldable pub has_version : ℕ → List ApiVersion → Bool
has_version key [] = Bool.false
has_version key (v ∷ vs) = if v.api_key == key then Bool.true else has_version key vs

-- selectVersions, with what ApiVersions returned: `none` is an error.
unfoldable pub select_versions : Conn → Option (List ApiVersion) → Conn
select_versions c offered =
    let vs : List ApiVersion = elim offered [ none ↦ default_api_versions | some vs ↦ vs ] in
    record c {
      api_versions = vs;
      fetch_version =
          if has_version 1 vs then (if at_least 5 1 vs then 5 else 2) else c.fetch_version;
    }

unfoldable pub write_api_versions_request : Conn → ℕ → List ℕ
write_api_versions_request c id = frame_header 18 0 id c.client_id 0

unfoldable pub read_api_version : Reader ApiVersion
read_api_version = do
  api_key ← read_int16
  min_version ← read_int16
  max_version ← read_int16
  pure (record { api_key = api_key; min_version = min_version; max_version = max_version })

-- `make` panics for a negative size.
unfoldable pub read_api_version_array : ℤ → Reader (List ApiVersion)
read_api_version_array (pos n) = read_times n read_api_version
read_api_version_array (negsuc n) = throw panics

unfoldable pub read_api_versions : Reader (List ApiVersion)
read_api_versions = do
  error_code ← read_int16
  arr_size ← read_int32
  r ← read_api_version_array (signed32 arr_size)
  if error_code == 0 then pure r else throw (kafka error_code)

-- ApiVersions: the bytes sent, and the exchange. It does not test that the response is used up.
unfoldable pub api_versions : Conn → ℕ → List ℕ → List ℕ × Reply (List ApiVersion)
api_versions c id input = (write_api_versions_request c id, exchange id read_api_versions input)

unfoldable pub sasl_handshake : Conn → List ℕ → ℕ → List ℕ → List ℕ × Called SaslHandshakeResponseV0
sasl_handshake c mechanism id input =
    operation {A = SaslHandshakeRequestV0} 17 (if at_least 1 17 c.api_versions then 1 else 0)
      read_sasl_handshake_response_v0 (λ (r : SaslHandshakeResponseV0). r.error_code ∷ []) id
      c.client_id (record { mechanism = mechanism }) input

-- The branch of saslAuthenticate behind a handshake of version 1.
unfoldable pub sasl_authenticate :
    Conn → Slice → ℕ → List ℕ → List ℕ × Called SaslAuthenticateResponseV0
sasl_authenticate c auth_data id input =
    operation {A = SaslAuthenticateRequestV0} 36 0 read_sasl_authenticate_response_v0
      (λ (r : SaslAuthenticateResponseV0). r.error_code ∷ []) id c.client_id
      (record { auth_data = auth_data }) input

-- The other branch: opaque bytes behind their length.
unfoldable pub write_opaque : Slice → List ℕ
write_opaque b = write_int32 (length (content b) % 2 ^ 32) ++ content b

-- `int(respLen)` is both the size that is left and the number of bytes to read.
unfoldable pub read_opaque : List ℕ → Outcome Slice
read_opaque input = elim (read_int32 (at input 4)) [
  | fail e c ↦ fail e c
  | done n c ↦ elim (signed32 n) [
    | pos m ↦ read_new_bytes (pos m) (at c.input m)
    | negsuc m ↦ done none c
  ]
]
