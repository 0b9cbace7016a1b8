-- ===== src/Protocol.antt =====
-- The requests and responses of the protocol, a module for each pair.
pub mod Connection
pub mod CreateTopics
pub mod DeleteTopics
pub mod DescribeGroups
pub mod Direct
pub mod Exchange
pub mod Fetch
pub mod FetchHeader
pub mod FindCoordinator
pub mod Frame
pub mod GroupAssignment
pub mod Header
pub mod Heartbeat
pub mod Interface
pub mod JoinGroup
pub mod JoinGroupResponse
pub mod LeaveGroup
pub mod ListGroups
pub mod ListOffset
pub mod Metadata
pub mod OffsetCommit
pub mod OffsetFetch
pub mod Operations
pub mod ProduceResponse
pub mod Requests
pub mod Sasl
pub mod SyncGroup
