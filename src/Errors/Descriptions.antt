-- ===== src/Errors/Descriptions.antt =====
-- error.go: the descriptions of the errors, by the code.
use kafka_go.Prelude.{ℕ, ◌-◌, ◌^◌, List, [], ◌∷◌}
use Prim.Native.String.{String}

-- Unknown, as an int16
abbrev minus_one : ℕ
minus_one = 2 ^ 16 - 1

-- The cases of the switch.
unfoldable pub descriptions : List (ℕ × String)
descriptions =
    (minus_one, "an unexpected server error occurred")
    ∷ (
      1,
      "the requested offset is outside the range of offsets maintained by the server for the given topic/partition",
    )
    ∷ (2, "the message contents does not match its CRC")
    ∷ (3, "the request is for a topic or partition that does not exist on this broker")
    ∷ (4, "the message has a negative size")
    ∷ (
      5,
      "the cluster is in the middle of a leadership election and there is currently no leader for this partition and hence it is unavailable for writes",
    )
    ∷ (
      6,
      "the client attempted to send messages to a replica that is not the leader for some partition, the client's metadata are likely out of date",
    )
    ∷ (7, "the request exceeded the user-specified time limit in the request")
    ∷ (8, "not a client facing error and is used mostly by tools when a broker is not alive")
    ∷ (9, "a replica is expected on a broker, but is not (this can be safely ignored)")
    ∷ (
      10,
      "the server has a configurable maximum message size to avoid unbounded memory allocation and the client attempted to produce a message larger than this maximum",
    )
    ∷ (11, "internal error code for broker-to-broker communication")
    ∷ (12, "the client specified a string larger than configured maximum for offset metadata")
    ∷ (
      14,
      "the broker returns this error code for an offset fetch request if it is still loading offsets (after a leader change for that offsets topic partition), or in response to group membership requests (such as heartbeats) when group metadata is being loaded by the coordinator",
    )
    ∷ (
      15,
      "the broker returns this error code for group coordinator requests, offset commits, and most group management requests if the offsets topic has not yet been created, or if the group coordinator is not active",
    )
    ∷ (
      16,
      "the broker returns this error code if it receives an offset fetch or commit request for a group that it is not a coordinator for",
    )
    ∷ (
      17,
      "a request which attempted to access an invalid topic (e.g. one which has an illegal name), or if an attempt was made to write to an internal topic (such as the consumer offsets topic)",
    )
    ∷ (18, "a message batch in a produce request exceeds the maximum configured segment size")
    ∷ (
      19,
      "the number of in-sync replicas is lower than the configured minimum and requiredAcks is -1",
    )
    ∷ (20, "the message was written to the log, but with fewer in-sync replicas than required.")
    ∷ (21, "the requested requiredAcks is invalid (anything other than -1, 1, or 0)")
    ∷ (22, "the generation id provided in the request is not the current generation")
    ∷ (
      23,
      "the member provided a protocol type or set of protocols which is not compatible with the current group",
    )
    ∷ (24, "the group id is empty or null")
    ∷ (25, "the member id is not in the current generation")
    ∷ (26, "the requested session timeout is outside of the allowed range on the broker")
    ∷ (27, "the coordinator has begun rebalancing the group, the client should rejoin the group")
    ∷ (28, "an offset commit was rejected because of oversize metadata")
    ∷ (29, "the client is not authorized to access the requested topic")
    ∷ (30, "the client is not authorized to access a particular group id")
    ∷ (31, "the client is not authorized to use an inter-broker or administrative API")
    ∷ (32, "the timestamp of the message is out of acceptable range")
    ∷ (33, "the broker does not support the requested SASL mechanism")
    ∷ (34, "the request is not valid given the current SASL state")
    ∷ (35, "the version of API is not supported")
    ∷ (36, "a topic with this name already exists")
    ∷ (37, "the number of partitions is invalid")
    ∷ (38, "the replication-factor is invalid")
    ∷ (39, "the replica assignment is invalid")
    ∷ (40, "the configuration is invalid")
    ∷ (41, "this is not the correct controller for this cluster")
    ∷ (
      42,
      "this most likely occurs because of a request being malformed by the client library or the message was sent to an incompatible broker, se the broker logs for more details",
    )
    ∷ (43, "the message format version on the broker does not support the request")
    ∷ (44, "the request parameters do not satisfy the configured policy")
    ∷ (45, "the broker received an out of order sequence number")
    ∷ (46, "the broker received a duplicate sequence number")
    ∷ (
      47,
      "the producer attempted an operation with an old epoch, either there is a newer producer with the same transactional ID, or the producer's transaction has been expired by the broker",
    )
    ∷ (48, "the producer attempted a transactional operation in an invalid state")
    ∷ (
      49,
      "the producer attempted to use a producer id which is not currently assigned to its transactional ID",
    )
    ∷ (
      50,
      "the transaction timeout is larger than the maximum value allowed by the broker (as configured by max.transaction.timeout.ms)",
    )
    ∷ (
      51,
      "the producer attempted to update a transaction while another concurrent operation on the same transaction was ongoing",
    )
    ∷ (
      52,
      "the transaction coordinator sending a WriteTxnMarker is no longer the current coordinator for a given producer",
    )
    ∷ (53, "the transactional ID authorization failed")
    ∷ (54, "the security features are disabled")
    ∷ (55, "the broker authorization failed")
    ∷ (56, "disk error when trying to access log file on the disk")
    ∷ (57, "the user-specified log directory is not found in the broker config")
    ∷ (58, "SASL Authentication failed")
    ∷ (59, "the broker could not locate the producer metadata associated with the producer ID")
    ∷ (60, "a partition reassignment is in progress")
    ∷ (61, "delegation token feature is not enabled")
    ∷ (62, "delegation token is not found on server")
    ∷ (63, "specified principal is not valid owner/renewer")
    ∷ (
      64,
      "delegation token requests are not allowed on plaintext/1-way ssl channels and on delegation token authenticated channels",
    )
    ∷ (65, "delegation token authorization failed")
    ∷ (66, "delegation token is expired")
    ∷ (67, "supplied principaltype is not supported")
    ∷ (68, "the group is not empty")
    ∷ (69, "the group ID does not exist")
    ∷ (70, "the fetch session ID was not found")
    ∷ (71, "the fetch session epoch is invalid")
    ∷ (
      72,
      "there is no listener on the leader broker that matches the listener on which metadata request was processed",
    )
    ∷ (73, "topic deletion is disabled")
    ∷ (74, "the leader epoch in the request is older than the epoch on the broker")
    ∷ (75, "the leader epoch in the request is newer than the epoch on the broker")
    ∷ (76, "the requesting client does not support the compression type of given partition")
    ∷ []
