-- ===== src/Api.antt =====
-- backend/api/main.py and backend/redis_client.py: the endpoints, what they show, and the queue.
pub mod Queue
pub mod Views
pub mod Listing
pub mod Metrics
pub mod Detail
pub mod Results
pub mod Approvals
pub mod Events
pub mod Outage
pub mod Simulate
