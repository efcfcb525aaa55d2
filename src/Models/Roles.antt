-- ===== src/Models/Roles.antt =====
-- The roles of users: api/src/models/user.rs (lines 6 to 11).
pub data UserRole : Type 0 where
  user admin : UserRole
