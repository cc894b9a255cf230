-- ===== src/Release.antt =====
-- tools/private/release: the versions of the release tool.
pub mod Checklist
pub mod Issue
pub mod Action
pub mod Git
pub mod PullRequests
pub mod ReleaseTitle
pub mod ProcessBackports
pub mod CreateRc
pub mod Promote
pub mod AddBackports
pub mod Prepare
pub mod SyncChangelog
pub mod BackportIssue
pub mod BackportPrepare
pub mod BackportReleases
pub mod BackportTargets
pub mod News
pub mod Versions
pub mod Placeholders
mod Tests
