-- ===== src/Repository/Accounts.antt =====
-- Users inside a database, and backups: api/src/repository/database_repo.rs (lines 238 to 356), with the
-- constraints of migrations 006 and 007.
use dbsaa_s.Prelude.{
  ℕ, Bool, not, Option, List, [], ◌∷◌, ◌++◌, String, str_eq, ◌==◌, leb, ◌&&◌, ◌||◌, select, count,
  find, update, delete, any, sort_by,
}
use dbsaa_s.Models.Access.{DatabaseUser, DbPermission}
use dbsaa_s.Models.Records.{BackupRecord}
use dbsaa_s.Platform.{M, Services, pure, gets, modify, throw_if, new_uuid, now_utc, ◌>>=◌, ◌>>◌}
use dbsaa_s.Repository.Networks.{duplicate_key, foreign_key}
use dbsaa_s.Repository.Databases.{is_database}

-- PRIMARY KEY (id), UNIQUE (database_id, username)
abbrev pub same_account : ℕ → ℕ → String → DatabaseUser → Bool
same_account id database_id username u =
    u.id == id || (u.database_id == database_id && str_eq u.username username)

module _ {W : Type 0} where
  unfoldable pub find_database_users : ℕ → M W (List DatabaseUser)
  find_database_users database_id = gets (λ s.
      sort_by (λ a b. leb a.created_at b.created_at)
        (select (λ u. u.database_id == database_id) s.database_users))

  unfoldable pub find_database_user_by_id : ℕ → M W (Option DatabaseUser)
  find_database_user_by_id id = gets (λ s. find (λ u. u.id == id) s.database_users)

  unfoldable pub delete_database_user : ℕ → M W (Unit {0})
  delete_database_user id =
      modify (λ s. record s { database_users = delete (λ u. u.id == id) s.database_users })

  unfoldable pub count_database_users : ℕ → M W ℕ
  count_database_users database_id =
      gets (λ s. count (λ u. u.database_id == database_id) s.database_users)

  unfoldable pub find_backups_by_database : ℕ → M W (List BackupRecord)
  find_backups_by_database database_id = gets (λ s.
      sort_by (λ a b. leb b.created_at a.created_at)
        (select (λ b. b.database_id == database_id) s.backups))

  unfoldable pub find_backup_by_id : ℕ → M W (Option BackupRecord)
  find_backup_by_id id = gets (λ s. find (λ b. b.id == id) s.backups)

  unfoldable pub delete_backup : ℕ → M W (Unit {0})
  delete_backup id = modify (λ s. record s { backups = delete (λ b. b.id == id) s.backups })

module _ {W : Type 0} (svc : Services W) where
  unfoldable pub create_database_user : ℕ → String → String → DbPermission → M W DatabaseUser
  create_database_user database_id username password_encrypted permission = do
    id ← new_uuid svc
    t ← now_utc svc
    taken ← gets (λ s. any (same_account id database_id username) s.database_users)
    known ← gets (λ s. any (is_database database_id) s.instances)
    throw_if taken duplicate_key
    throw_if (not known) foreign_key
    let row : DatabaseUser = record {
      id = id;
      database_id = database_id;
      username = username;
      password_encrypted = password_encrypted;
      permission = permission;
      created_at = t;
      updated_at = t;
    }
    modify (λ s. record s { database_users = s.database_users ++ (row ∷ []) })
    pure row

  unfoldable pub update_database_user_password : ℕ → String → M W (Unit {0})
  update_database_user_password id password_encrypted = do
    t ← now_utc svc
    modify (λ s. record s {
      database_users =
          update (λ u. u.id == id)
            (λ u. record u { password_encrypted = password_encrypted; updated_at = t })
            s.database_users;
    })

  unfoldable pub create_backup : ℕ → String → ℕ → M W BackupRecord
  create_backup database_id filename size_bytes = do
    id ← new_uuid svc
    t ← now_utc svc
    taken ← gets (λ s. any (λ b. b.id == id) s.backups)
    known ← gets (λ s. any (is_database database_id) s.instances)
    throw_if taken duplicate_key
    throw_if (not known) foreign_key
    let row : BackupRecord = record {
      id = id;
      database_id = database_id;
      filename = filename;
      size_bytes = size_bytes;
      created_at = t;
    }
    modify (λ s. record s { backups = s.backups ++ (row ∷ []) })
    pure row
