-- ===== src/Errors/Titles.antt =====
-- error.go: the titles of the errors, by the code.
use kafka_go.Prelude.{ℕ, ◌-◌, ◌^◌, List, [], ◌∷◌}
use Prim.Native.String.{String}

-- Unknown, as an int16
abbrev minus_one : ℕ
minus_one = 2 ^ 16 - 1

-- The cases of the switch.
unfoldable pub titles : List (ℕ × String)
titles =
    (minus_one, "Unknown")
    ∷ (1, "Offset Out Of Range")
    ∷ (2, "Invalid Message")
    ∷ (3, "Unknown Topic Or Partition")
    ∷ (4, "Invalid Message Size")
    ∷ (5, "Leader Not Available")
    ∷ (6, "Not Leader For Partition")
    ∷ (7, "Request Timed Out")
    ∷ (8, "Broker Not Available")
    ∷ (9, "Replica Not Available")
    ∷ (10, "Message Size Too Large")
    ∷ (11, "Stale Controller Epoch")
    ∷ (12, "Offset Metadata Too Large")
    ∷ (13, "Network Exception")
    ∷ (14, "Group Load In Progress")
    ∷ (15, "Group Coordinator Not Available")
    ∷ (16, "Not Coordinator For Group")
    ∷ (17, "Invalid Topic")
    ∷ (18, "Record List Too Large")
    ∷ (19, "Not Enough Replicas")
    ∷ (20, "Not Enough Replicas After Append")
    ∷ (21, "Invalid Required Acks")
    ∷ (22, "Illegal Generation")
    ∷ (23, "Inconsistent Group Protocol")
    ∷ (24, "Invalid Group ID")
    ∷ (25, "Unknown Member ID")
    ∷ (26, "Invalid Session Timeout")
    ∷ (27, "Rebalance In Progress")
    ∷ (28, "Invalid Commit Offset Size")
    ∷ (29, "Topic Authorization Failed")
    ∷ (30, "Group Authorization Failed")
    ∷ (31, "Cluster Authorization Failed")
    ∷ (32, "Invalid Timestamp")
    ∷ (33, "Unsupported SASL Mechanism")
    ∷ (34, "Illegal SASL State")
    ∷ (35, "Unsupported Version")
    ∷ (36, "Topic Already Exists")
    ∷ (37, "Invalid Partition Number")
    ∷ (38, "Invalid Replication Factor")
    ∷ (39, "Invalid Replica Assignment")
    ∷ (40, "Invalid Configuration")
    ∷ (41, "Not Controller")
    ∷ (42, "Invalid Request")
    ∷ (43, "Unsupported For Message Format")
    ∷ (44, "Policy Violation")
    ∷ (45, "Out Of Order Sequence Number")
    ∷ (46, "Duplicate Sequence Number")
    ∷ (47, "Invalid Producer Epoch")
    ∷ (48, "Invalid Transaction State")
    ∷ (49, "Invalid Producer ID Mapping")
    ∷ (50, "Invalid Transaction Timeout")
    ∷ (51, "Concurrent Transactions")
    ∷ (52, "Transaction Coordinator Fenced")
    ∷ (53, "Transactional ID Authorization Failed")
    ∷ (54, "Security Disabled")
    ∷ (55, "Broker Authorization Failed")
    ∷ (56, "Kafka Storage Error")
    ∷ (57, "Log Dir Not Found")
    ∷ (58, "SASL Authentication Failed")
    ∷ (59, "Unknown Producer ID")
    ∷ (60, "Reassignment In Progress")
    ∷ (61, "Delegation Token Auth Disabled")
    ∷ (62, "Delegation Token Not Found")
    ∷ (63, "Delegation Token Owner Mismatch")
    ∷ (64, "Delegation Token Request Not Allowed")
    ∷ (65, "Delegation Token Authorization Failed")
    ∷ (66, "Delegation Token Expired")
    ∷ (67, "Invalid Principal Type")
    ∷ (68, "Non Empty Group")
    ∷ (69, "Group ID Not Found")
    ∷ (70, "Fetch Session ID Not Found")
    ∷ (71, "Invalid Fetch Session Epoch")
    ∷ (72, "Listener Not Found")
    ∷ (73, "Topic Deletion Disabled")
    ∷ (74, "Fenced Leader Epoch")
    ∷ (75, "Unknown Leader Epoch")
    ∷ (76, "Unsupported Compression Type")
    ∷ (78, "Offset Not Available")
    ∷ (80, "Preferred Leader not available")
    ∷ []
