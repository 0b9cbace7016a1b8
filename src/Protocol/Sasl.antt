-- ===== src/Protocol/Sasl.antt =====
-- saslhandshake.go and saslauthenticate.go: the two SASL requests and responses.
use kafka_go.Prelude.{ℕ, ◌<◌, ◌^◌, List, ◌++◌, length, All}
use kafka_go.Wire.Bytes.{Slice, content}
use kafka_go.Wire.Reader.{Reader, pure, ◌>>=◌}
use kafka_go.Wire.Read.{read_int16, read_string, read_bytes, read_string_array}
use kafka_go.Wire.Write.{write_int16, write_string, write_bytes, write_string_array}
use kafka_go.Wire.Size.{◌⊕◌, sizeof_int16, sizeof_string, sizeof_bytes, sizeof_string_array}
use kafka_go.Wire.Sizes.{Sizes, sizes}
use kafka_go.Wire.Reads.{Reads, >>=-Reads, last-Reads}
use kafka_go.Wire.Primitives.{
  IsString, canonical, int16-Reads, string-Reads, bytes-Reads, string_array-Reads,
}
use kafka_go.Wire.Frame.{
  Framed, >>=-Framed, last-Framed, int16-Framed, string-Framed, bytes-Framed, string_array-Framed,
}

pub record SaslHandshakeRequestV0 : Type 0 where
  pub mechanism : List ℕ

unfoldable pub size_sasl_handshake_request_v0 : SaslHandshakeRequestV0 → ℕ
size_sasl_handshake_request_v0 t = sizeof_string t.mechanism

unfoldable pub write_sasl_handshake_request_v0 : SaslHandshakeRequestV0 → List ℕ
write_sasl_handshake_request_v0 t = write_string t.mechanism

unfoldable pub read_sasl_handshake_request_v0 : Reader SaslHandshakeRequestV0
read_sasl_handshake_request_v0 = do mechanism ← read_string; pure (record { mechanism = mechanism })

pub size_sasl_handshake_request_v0-Sizes :
    (t : SaslHandshakeRequestV0)
    → Sizes (size_sasl_handshake_request_v0 t) (write_sasl_handshake_request_v0 t)
unfolding size_sasl_handshake_request_v0 write_sasl_handshake_request_v0
size_sasl_handshake_request_v0-Sizes t = omega sizes

-- The fields fit their encodings.
pub record IsSaslHandshakeRequestV0 (t : SaslHandshakeRequestV0) : Type 0 where
  pub mechanism : IsString t.mechanism

pub sasl_handshake_request_v0-Reads :
    (t : SaslHandshakeRequestV0)
    → IsSaslHandshakeRequestV0 t
    → Reads read_sasl_handshake_request_v0 (write_sasl_handshake_request_v0 t) t
unfolding read_sasl_handshake_request_v0 write_sasl_handshake_request_v0
sasl_handshake_request_v0-Reads t v = last-Reads _ (string-Reads t.mechanism v.mechanism)

pub sasl_handshake_request_v0-Framed : Framed read_sasl_handshake_request_v0
unfolding read_sasl_handshake_request_v0
sasl_handshake_request_v0-Framed = last-Framed _ string-Framed

pub record SaslHandshakeResponseV0 : Type 0 where
  pub error_code : ℕ
  pub enabled_mechanisms : List (List ℕ)

unfoldable pub size_sasl_handshake_response_v0 : SaslHandshakeResponseV0 → ℕ
size_sasl_handshake_response_v0 t =
    sizeof_int16 t.error_code ⊕ sizeof_string_array t.enabled_mechanisms

unfoldable pub write_sasl_handshake_response_v0 : SaslHandshakeResponseV0 → List ℕ
write_sasl_handshake_response_v0 t =
    write_int16 t.error_code ++ write_string_array t.enabled_mechanisms

unfoldable pub read_sasl_handshake_response_v0 : Reader SaslHandshakeResponseV0
read_sasl_handshake_response_v0 = do
  error_code ← read_int16
  enabled_mechanisms ← read_string_array
  pure (record { error_code = error_code; enabled_mechanisms = enabled_mechanisms })

pub size_sasl_handshake_response_v0-Sizes :
    (t : SaslHandshakeResponseV0)
    → Sizes (size_sasl_handshake_response_v0 t) (write_sasl_handshake_response_v0 t)
unfolding size_sasl_handshake_response_v0 write_sasl_handshake_response_v0
size_sasl_handshake_response_v0-Sizes t = omega sizes

-- The fields fit their encodings.
pub record IsSaslHandshakeResponseV0 (t : SaslHandshakeResponseV0) : Type 0 where
  pub error_code : t.error_code < 2 ^ 16
  pub enabled_mechanisms_count : length t.enabled_mechanisms < 2 ^ 31
  pub enabled_mechanisms : All IsString t.enabled_mechanisms

pub sasl_handshake_response_v0-Reads :
    (t : SaslHandshakeResponseV0)
    → IsSaslHandshakeResponseV0 t
    → Reads read_sasl_handshake_response_v0 (write_sasl_handshake_response_v0 t) t
unfolding read_sasl_handshake_response_v0 write_sasl_handshake_response_v0
sasl_handshake_response_v0-Reads t v = >>=-Reads _ (int16-Reads t.error_code v.error_code) (
    last-Reads _
      (string_array-Reads t.enabled_mechanisms v.enabled_mechanisms_count v.enabled_mechanisms))

pub sasl_handshake_response_v0-Framed : Framed read_sasl_handshake_response_v0
unfolding read_sasl_handshake_response_v0
sasl_handshake_response_v0-Framed = >>=-Framed _ int16-Framed λ _. last-Framed _ string_array-Framed

pub record SaslAuthenticateRequestV0 : Type 0 where
  pub auth_data : Slice

unfoldable pub size_sasl_authenticate_request_v0 : SaslAuthenticateRequestV0 → ℕ
size_sasl_authenticate_request_v0 t = sizeof_bytes t.auth_data

unfoldable pub write_sasl_authenticate_request_v0 : SaslAuthenticateRequestV0 → List ℕ
write_sasl_authenticate_request_v0 t = write_bytes t.auth_data

unfoldable pub read_sasl_authenticate_request_v0 : Reader SaslAuthenticateRequestV0
read_sasl_authenticate_request_v0 = do
  auth_data ← read_bytes
  pure (record { auth_data = auth_data })

pub size_sasl_authenticate_request_v0-Sizes :
    (t : SaslAuthenticateRequestV0)
    → Sizes (size_sasl_authenticate_request_v0 t) (write_sasl_authenticate_request_v0 t)
unfolding size_sasl_authenticate_request_v0 write_sasl_authenticate_request_v0
size_sasl_authenticate_request_v0-Sizes t = omega sizes

-- The fields fit their encodings.
pub record IsSaslAuthenticateRequestV0 (t : SaslAuthenticateRequestV0) : Type 0 where
  pub auth_data : length (content t.auth_data) < 2 ^ 31

-- An empty byte slice comes back as nil.
pub canonical_sasl_authenticate_request_v0 : SaslAuthenticateRequestV0 → SaslAuthenticateRequestV0
canonical_sasl_authenticate_request_v0 t = record t { auth_data = canonical t.auth_data }

pub sasl_authenticate_request_v0-Reads :
    (t : SaslAuthenticateRequestV0)
    → IsSaslAuthenticateRequestV0 t
    → Reads read_sasl_authenticate_request_v0
        (write_sasl_authenticate_request_v0 t)
        (canonical_sasl_authenticate_request_v0 t)
unfolding read_sasl_authenticate_request_v0 write_sasl_authenticate_request_v0
    canonical_sasl_authenticate_request_v0
sasl_authenticate_request_v0-Reads t v = last-Reads _ (bytes-Reads t.auth_data v.auth_data)

pub sasl_authenticate_request_v0-Framed : Framed read_sasl_authenticate_request_v0
unfolding read_sasl_authenticate_request_v0
sasl_authenticate_request_v0-Framed = last-Framed _ bytes-Framed

pub record SaslAuthenticateResponseV0 : Type 0 where
  pub error_code : ℕ
  pub error_message : List ℕ
  pub auth_data : Slice

unfoldable pub size_sasl_authenticate_response_v0 : SaslAuthenticateResponseV0 → ℕ
size_sasl_authenticate_response_v0 t =
    sizeof_int16 t.error_code ⊕ sizeof_string t.error_message ⊕ sizeof_bytes t.auth_data

unfoldable pub write_sasl_authenticate_response_v0 : SaslAuthenticateResponseV0 → List ℕ
write_sasl_authenticate_response_v0 t =
    write_int16 t.error_code ++ (write_string t.error_message ++ write_bytes t.auth_data)

unfoldable pub read_sasl_authenticate_response_v0 : Reader SaslAuthenticateResponseV0
read_sasl_authenticate_response_v0 = do
  error_code ← read_int16
  error_message ← read_string
  auth_data ← read_bytes
  pure (record { error_code = error_code; error_message = error_message; auth_data = auth_data })

pub size_sasl_authenticate_response_v0-Sizes :
    (t : SaslAuthenticateResponseV0)
    → Sizes (size_sasl_authenticate_response_v0 t) (write_sasl_authenticate_response_v0 t)
unfolding size_sasl_authenticate_response_v0 write_sasl_authenticate_response_v0
size_sasl_authenticate_response_v0-Sizes t = omega sizes

-- The fields fit their encodings.
pub record IsSaslAuthenticateResponseV0 (t : SaslAuthenticateResponseV0) : Type 0 where
  pub error_code : t.error_code < 2 ^ 16
  pub error_message : IsString t.error_message
  pub auth_data : length (content t.auth_data) < 2 ^ 31

-- An empty byte slice comes back as nil.
pub canonical_sasl_authenticate_response_v0 :
    SaslAuthenticateResponseV0 → SaslAuthenticateResponseV0
canonical_sasl_authenticate_response_v0 t = record t { auth_data = canonical t.auth_data }

pub sasl_authenticate_response_v0-Reads :
    (t : SaslAuthenticateResponseV0)
    → IsSaslAuthenticateResponseV0 t
    → Reads read_sasl_authenticate_response_v0
        (write_sasl_authenticate_response_v0 t)
        (canonical_sasl_authenticate_response_v0 t)
unfolding read_sasl_authenticate_response_v0 write_sasl_authenticate_response_v0
    canonical_sasl_authenticate_response_v0
sasl_authenticate_response_v0-Reads t v = >>=-Reads _ (int16-Reads t.error_code v.error_code) (
    >>=-Reads _ (string-Reads t.error_message v.error_message)
      (last-Reads _ (bytes-Reads t.auth_data v.auth_data)))

pub sasl_authenticate_response_v0-Framed : Framed read_sasl_authenticate_response_v0
unfolding read_sasl_authenticate_response_v0
sasl_authenticate_response_v0-Framed =
    >>=-Framed _ int16-Framed λ _. >>=-Framed _ string-Framed λ _. last-Framed _ bytes-Framed
