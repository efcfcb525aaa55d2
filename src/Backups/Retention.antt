-- ===== src/Backups/Retention.antt =====
-- What the retention leaves: api/src/services/backup.rs (lines 94 to 111).
use dbsaa_s.Prelude.{
  ℕ, zero, suc, ◌+◌, ◌≤◌, ◌≡◌, refl, sym, ◌∙◌, ap, subst, Bool, true, false, not, ◌&&◌, List, [],
  ◌∷◌, String, ◌==◌, leb, select, count, delete, any, sort_by, insert_by, length, arith,
  if◌then◌else◌,
}
use dbsaa_s.Prelude.Int.{pos}
use dbsaa_s.Models.Records.{BackupRecord}
use dbsaa_s.Errors.{Result, ok}
use dbsaa_s.Platform.{State, Services, run, for_each, pure}
use dbsaa_s.Repository.Accounts.{delete_backup, find_backups_by_database}
use dbsaa_s.Backups.{skip, drop_backup, cleanup_old_backups}

-- One of the rows `ds`, by its id.
abbrev pub is_among : List BackupRecord → BackupRecord → Bool
is_among ds b = any (λ d. b.id == d.id) ds

abbrev pub of_database : ℕ → BackupRecord → Bool
of_database database_id b = b.database_id == database_id

abbrev pub newer : BackupRecord → BackupRecord → Bool
newer a b = leb b.created_at a.created_at

delete-all :
    (d : BackupRecord) (ds l : List BackupRecord)
    → delete (is_among ds) (delete (λ b. b.id == d.id) l) ≡ delete (is_among (d ∷ ds)) l
delete-all d ds [] = refl
delete-all d ds (b ∷ l) = ground (arith, delete-all d ds l)

delete-none : (l : List BackupRecord) → delete (is_among []) l ≡ l
delete-none [] = refl
delete-none (b ∷ l) = ap (λ m. b ∷ m) (delete-none l)

module _ {W : Type 0} (svc : Services W) (dir : String) where
  -- The rows are deleted one after the other, whatever becomes of the files.
  for_each-drop :
      (ds : List BackupRecord) (s : State W)
      → (w : W) × (for_each ds (drop_backup svc dir) s
          ≡ (ok tt, record s { backups = delete (is_among ds) s.backups; world = w }))
  unfolding for_each drop_backup delete_backup run
  for_each-drop [] s =
      (s.world, ap (λ l. (ok tt, record s { backups = l })) (sym (delete-none s.backups)))
  for_each-drop (d ∷ ds) s =
      let s₁ : State W = (drop_backup svc dir d s).1 in
      let (w, e) = for_each-drop ds s₁ in
      (w, e ∙ ap (λ l. (ok tt, record s { backups = l; world = w })) (delete-all d ds s.backups))

skip-all : {A : Type 0} (n : ℕ) (l : List A) → leb (length l) n ≡ true → skip n l ≡ []
skip-all zero [] h = refl
skip-all zero (x ∷ l) h = absurd (ground arith)
skip-all (suc n) [] h = refl
skip-all (suc n) (x ∷ l) h = skip-all n l (ground arith)

module _ {A : Type 0} (p : A → Bool) where
  count-insert :
      (le : A → A → Bool) (x : A) (l : List A) → count p (insert_by le x l) ≡ count p (x ∷ l)
  count-insert le x [] = refl
  count-insert le x (y ∷ l) = ground (arith, count-insert le x l)

  count-sort : (le : A → A → Bool) (l : List A) → count p (sort_by le l) ≡ count p l
  count-sort le [] = refl
  count-sort le (x ∷ l) = ground (arith, count-insert le x (sort_by le l), count-sort le l)

  count-skip-le : (n : ℕ) (l : List A) → count p (skip n l) ≡ 0 → count p l ≤ n
  count-skip-le zero l h = omega (arith, h)
  count-skip-le (suc n) [] h = omega arith
  count-skip-le (suc n) (x ∷ l) h = ground (arith, count-skip-le n l)

  count-select : (q : A → Bool) (l : List A) → count p (select q l) ≡ count (λ x. q x && p x) l
  count-select q [] = refl
  count-select q (x ∷ l) = ground (arith, count-select q l)

-- A row is among any list that holds it.
count-among :
    (more ds : List BackupRecord)
    → ((b : BackupRecord) → is_among ds b ≡ true → is_among more b ≡ true)
    → count (λ b. not (is_among more b)) ds ≡ 0
count-among more [] h = refl
count-among more (d ∷ ds) h = ground (arith, h d, count-among more ds (λ b i. h b (ground arith)))

count-delete :
    (p q : BackupRecord → Bool) (l : List BackupRecord)
    → count p (delete q l) ≡ count (λ b. p b && not (q b)) l
count-delete p q [] = refl
count-delete p q (b ∷ l) = ground (arith, count-delete p q l)

module _ {W : Type 0} (svc : Services W) (database_id n : ℕ) (dir : String) (s : State W) where
  -- The backups of the database, the newest first.
  abbrev pub newest : List BackupRecord
  newest = sort_by newer (select (of_database database_id) s.backups)

  -- All but the `n` newest are deleted, and nothing else changes; so at most `n` are left.
  abbrev pub IsRetained : Result (Unit {0}) × State W → Type 0
  IsRetained x =
      (w : W) × (x
        ≡ (ok tt, record s { backups = delete (is_among (skip n newest)) s.backups; world = w }))
      × (count (of_database database_id) x.1.backups ≤ n)

  few : count (of_database database_id) (delete (is_among (skip n newest)) s.backups) ≤ n
  few =
      let stays : BackupRecord → Bool = λ b. not (is_among (skip n newest) b) in
      let gone : count stays (skip n newest) ≡ 0 =
        count-among (skip n newest) (skip n newest) (λ b i. i) in
      omega (
        arith,
        count-delete (of_database database_id) (is_among (skip n newest)) s.backups,
        count-select stays (of_database database_id) s.backups,
        count-sort stays newer (select (of_database database_id) s.backups),
        count-skip-le stays n newest gone,
      )

  -- The cleanup after a backup, with a retention of `n`, always ends with exactly the backups of the database
  -- but for its `n` newest deleted, and with nothing else changed in the tables, whatever becomes of the files;
  -- then the database has at most `n` backups.
  pub cleanup_old_backups-IsRetained :
      IsRetained (cleanup_old_backups svc database_id (pos n) dir s)
  unfolding cleanup_old_backups find_backups_by_database run
  cleanup_old_backups-IsRetained = go (leb (length newest + 0) (n + 0)) refl
    where
      go :
          (c : Bool)
          → leb (length newest + 0) (n + 0) ≡ c
          → IsRetained ((if c then pure tt else for_each (skip n newest) (drop_backup svc dir)) s)
      go true h =
          let none_old : skip n newest ≡ [] = skip-all n newest (ground arith) in
          let stay : delete (is_among (skip n newest)) s.backups ≡ s.backups =
            ap (λ ds. delete (is_among ds) s.backups) none_old ∙ delete-none s.backups in
          (
            s.world,
            ap (λ l. (ok tt, record s { backups = l })) (sym stay),
            subst (λ l. count (of_database database_id) l ≤ n) stay few,
          )
      go false h =
          let (w, e) = for_each-drop svc dir (skip n newest) s in
          (w, e, subst (λ x. count (of_database database_id) x.1.backups ≤ n) (sym e) few)
