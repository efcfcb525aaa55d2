-- ===== src/Repository/Schedules.antt =====
-- Schedules of backups, and favorites: api/src/repository/backup_schedule_repo.rs and
-- api/src/repository/favorite_repo.rs, with the constraints of migrations 017 and 020.
use dbsaa_s.Prelude.{
  ℕ, ◌+◌, ◌*◌, Bool, true, not, Option, none, some, List, [], ◌∷◌, ◌++◌, ◌==◌, ltb, ◌&&◌, ◌||◌,
  select, find, update, delete, any, map, if◌then◌else◌,
}
use dbsaa_s.Prelude.Int.{ℤ, pos_part, neg_part}
use dbsaa_s.Models.Records.{BackupSchedule}
use dbsaa_s.Errors.{AppError}
use dbsaa_s.Platform.{
  M, Services, pure, gets, modify, throw_if, or_throw, new_uuid, now_utc, ◌>>=◌, ◌>>◌,
}
use dbsaa_s.Repository.Networks.{duplicate_key, foreign_key}
use dbsaa_s.Repository.Databases.{is_database}

-- `fetch_one` on no row: sqlx's `RowNotFound`.
abbrev pub row_not_found : AppError
row_not_found =
    AppError.database "no rows returned by a query that expected to return at least one row"

-- `COALESCE($1, old)`
abbrev pub coalesce {ℓ} : {A : Type ℓ} → Option A → A → A
coalesce none old = old
coalesce (some v) old = v

-- `last_run_at + interval_hours < NOW()`, in microseconds.
abbrev pub has_elapsed : ℕ → ℤ → ℕ → Bool
has_elapsed last hours now =
    ltb (last + pos_part hours * 3600000000) (now + neg_part hours * 3600000000)

abbrev pub never_or : Option ℕ → ℤ → ℕ → Bool
never_or none hours now = true
never_or (some last) hours now = has_elapsed last hours now

abbrev pub is_due : ℕ → BackupSchedule → Bool
is_due now p = p.enabled && never_or p.last_run_at p.interval_hours now

abbrev pub is_favorite : ℕ → ℕ → ℕ × ℕ → Bool
is_favorite user_id database_id (u, d) = u == user_id && d == database_id

module _ {W : Type 0} where
  unfoldable pub find_by_database : ℕ → M W (Option BackupSchedule)
  find_by_database database_id = gets (λ s. find (λ p. p.database_id == database_id) s.schedules)

  unfoldable pub update_schedule : ℕ → Option ℤ → Option ℤ → Option Bool → M W BackupSchedule
  update_schedule database_id interval_hours retention_count enabled = do
    modify (λ s. record s {
      schedules =
          update (λ p. p.database_id == database_id)
            (λ p. record p {
              interval_hours = coalesce interval_hours p.interval_hours;
              retention_count = coalesce retention_count p.retention_count;
              enabled = coalesce enabled p.enabled;
            })
            s.schedules;
    })
    found ← find_by_database database_id
    or_throw found row_not_found

  unfoldable pub delete_schedule : ℕ → M W (Unit {0})
  delete_schedule database_id =
      modify (λ s. record s { schedules = delete (λ p. p.database_id == database_id) s.schedules })

  unfoldable pub remove_favorite : ℕ → ℕ → M W (Unit {0})
  remove_favorite user_id database_id =
      modify (λ s. record s { favorites = delete (is_favorite user_id database_id) s.favorites })

  unfoldable pub list_favorites : ℕ → M W (List ℕ)
  list_favorites user_id = gets (λ s. map (λ f. f.1) (select (λ f. f.0 == user_id) s.favorites))

  -- `ON CONFLICT DO NOTHING`
  unfoldable pub add_favorite : ℕ → ℕ → M W (Unit {0})
  add_favorite user_id database_id = do
    known ← gets (λ s. any (is_database database_id) s.instances)
    throw_if (not known) foreign_key
    modify (λ s. record s {
      favorites =
          if any (is_favorite user_id database_id) s.favorites
          then s.favorites
          else s.favorites ++ ((user_id, database_id) ∷ []);
    })

module _ {W : Type 0} (svc : Services W) where
  unfoldable pub create_schedule : ℕ → ℤ → ℤ → Bool → M W BackupSchedule
  create_schedule database_id interval_hours retention_count enabled = do
    id ← new_uuid svc
    t ← now_utc svc
    taken ← gets (λ s. any (λ p. p.id == id || p.database_id == database_id) s.schedules)
    known ← gets (λ s. any (is_database database_id) s.instances)
    throw_if taken duplicate_key
    throw_if (not known) foreign_key
    let row : BackupSchedule = record {
      id = id;
      database_id = database_id;
      interval_hours = interval_hours;
      retention_count = retention_count;
      enabled = enabled;
      last_run_at = none;
      created_at = t;
    }
    modify (λ s. record s { schedules = s.schedules ++ (row ∷ []) })
    pure row

  unfoldable pub update_last_run : ℕ → M W (Unit {0})
  update_last_run id = do
    t ← now_utc svc
    modify (λ s. record s {
      schedules = update (λ p. p.id == id) (λ p. record p { last_run_at = some t }) s.schedules;
    })

  unfoldable pub find_due_schedules : M W (List BackupSchedule)
  find_due_schedules = do t ← now_utc svc; gets (λ s. select (is_due t) s.schedules)
