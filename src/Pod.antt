-- ===== src/Pod.antt =====
-- internal/dashboard: the process in the dashboard pod, which polls the widgets and serves the page.
pub mod Secrets
pub mod Field
pub mod Store
pub mod Number
pub mod Highlight
pub mod Htpasswd
pub mod Auth
pub mod PollFailure
pub mod Kube
pub mod BaseUrl
pub mod PodStatus
pub mod Monitor
pub mod Schedule
pub mod Icon
pub mod Discovery
pub mod Merge
pub mod Broadcast
pub mod MonitorMetrics
pub mod Work
pub mod EntryPoll
pub mod HeaderPoll
pub mod Job
pub mod Cycle
pub mod HeaderWidgets
pub mod Header
pub mod Poll
pub mod ClientCache
