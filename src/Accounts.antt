-- ===== src/Accounts.antt =====
-- Users, teams, memberships and invitations (apps/backend/src/modules/teams, modules/invitations and
-- modules/platform/users).
pub mod Tables
pub mod Teams
pub mod Members
pub mod Invitations
pub mod Users
pub mod Owners
pub mod TeamInv
pub mod TeamHistory
pub mod UserInv
pub mod UserHistory
pub mod Access
pub mod InviteOnce
pub mod Examples
pub mod OwnersHistory
