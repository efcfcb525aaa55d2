-- ===== src/Databases/Credentials.antt =====
-- What the endpoints on users inside a database leave: api/src/handlers/databases.rs (lines 825 to 920).
use dbsaa_s.Prelude.{◌≡◌, ◌∙◌, ap, List, String}
use dbsaa_s.Models.{DatabaseInstance, DbType}
use dbsaa_s.Models.Access.{DbPermission}
use dbsaa_s.Errors.{Result, ok}
use dbsaa_s.Config.{Config}
use dbsaa_s.Crypto.{encrypt_with}
use dbsaa_s.Platform.{State, M, Docker, Services, pure, ◌>>◌}
use dbsaa_s.Platform.Rules.{
  Keeps, IsInner, At-pure, At-call, At-throw_if, At-or_throw, Keeps-throw_if,
}
use dbsaa_s.Platform.Returns.{Returns, ok-inj, Returns-bind}
use dbsaa_s.Provisioner.Accounts.{
  exec_in_container, create_pg_user, remove_pg_user, rotate_pg_password, create_redis_user,
  remove_redis_user, rotate_redis_password, create_mariadb_user, remove_mariadb_user,
  rotate_mariadb_password, validate_redis_credential,
}
use dbsaa_s.Databases.Resources.{encrypt_string, fill_nonce, of_result}
use dbsaa_s.Databases.Quiet.{At-then}
use dbsaa_s.Databases.Users.{add_account, rotate_account, rotate_owner, drop_account}

module _ {W : Type 0} (svc : Services W) (I : State W → Type 0) (inner : IsInner I)
    (docker : Docker) (cid : String) where
  Keeps-exec : (cmd : List String) → Keeps I (exec_in_container svc docker cid cmd)
  unfolding exec_in_container
  Keeps-exec cmd s i =
      At-then _ _ (At-call _ inner i)
        λ id t j. At-then _ _ (At-call _ inner j) λ out t j. At-pure _ j

  Keeps-credential : (val field : String) → Keeps I (validate_redis_credential val field)
  unfolding validate_redis_credential
  Keeps-credential val field s i = At-throw_if _ _ _ i λ _. Keeps-throw_if _ _ s i

  -- A command, then the rest.
  After-exec :
      {B : Type 0} (cmd : List String) (k : M W B)
      → Keeps I k
      → Keeps I (exec_in_container svc docker cid cmd >> k)
  After-exec cmd k h s i = At-then _ _ (Keeps-exec cmd s i) λ _. h

  After-credential :
      {B : Type 0} (val field : String) (k : M W B)
      → Keeps I k
      → Keeps I (validate_redis_credential val field >> k)
  After-credential val field k h s i = At-then _ _ (Keeps-credential val field s i) λ _. h

  Keeps-done : Keeps {W = W} I (pure tt)
  Keeps-done s i = At-pure tt i

  pub Keeps-add_account :
      (cfg : Config) (db_type : DbType) (inst : DatabaseInstance) (owner username password : String)
      (permission : DbPermission)
      → Keeps I (add_account svc cfg db_type docker cid inst owner username password permission)
  unfolding create_pg_user create_redis_user create_mariadb_user
  Keeps-add_account cfg DbType.postgresql inst owner username password permission s i =
      At-or_throw _ _ _ i λ db _. After-exec _ _ (After-exec _ _ Keeps-done) s i
  Keeps-add_account cfg DbType.redis inst owner username password permission s i =
      After-credential _ _ _ (After-credential _ _ _ (After-exec _ _ (After-exec _ _ Keeps-done))) s
        i
  Keeps-add_account cfg DbType.mariadb inst owner username password permission s i =
      At-or_throw _ _ _ i λ db _. After-exec _ _ (After-exec _ _ (After-exec _ _ Keeps-done)) s i

  pub Keeps-drop_account :
      (cfg : Config) (db_type : DbType) (inst : DatabaseInstance) (owner username : String)
      → Keeps I (drop_account svc cfg db_type docker cid inst owner username)
  unfolding remove_pg_user remove_redis_user remove_mariadb_user
  Keeps-drop_account cfg DbType.postgresql inst owner username = After-exec _ _ Keeps-done
  Keeps-drop_account cfg DbType.redis inst owner username =
      After-credential _ _ _ (After-exec _ _ (After-exec _ _ Keeps-done))
  Keeps-drop_account cfg DbType.mariadb inst owner username = After-exec _ _ Keeps-done

  pub Keeps-rotate_account :
      (cfg : Config) (db_type : DbType) (inst : DatabaseInstance) (owner username password : String)
      → Keeps I (rotate_account svc cfg db_type docker cid inst owner username password)
  unfolding rotate_pg_password rotate_redis_password rotate_mariadb_password
  Keeps-rotate_account cfg DbType.postgresql inst owner username password =
      After-exec _ _ Keeps-done
  Keeps-rotate_account cfg DbType.redis inst owner username password =
      After-credential _ _ _ (After-credential _ _ _ (After-exec _ _ (After-exec _ _ Keeps-done)))
  Keeps-rotate_account cfg DbType.mariadb inst owner username password = After-exec _ _ Keeps-done

  pub Keeps-rotate_owner :
      (cfg : Config) (db_type : DbType) (inst : DatabaseInstance) (owner password : String)
      → Keeps I (rotate_owner svc cfg db_type docker cid inst owner password)
  unfolding rotate_pg_password rotate_mariadb_password
  Keeps-rotate_owner cfg DbType.postgresql inst owner password = After-exec _ _ Keeps-done
  Keeps-rotate_owner cfg DbType.redis inst owner password =
      After-exec _ _ (After-exec _ _ Keeps-done)
  Keeps-rotate_owner cfg DbType.mariadb inst owner password = After-exec _ _ Keeps-done

module _ {W : Type 0} where
  pub Keeps-of_result : {A : Type 0} (I : State W → Type 0) (r : Result A) → Keeps I (of_result r)
  Keeps-of_result I r s i = record { at = i }

  -- What is encrypted was encrypted under a nonce that the generator gave.
  pub Returns-encrypt_string :
      (svc : Services W) (text key : String) (s : State W) {stored : String} {s' : State W}
      → Returns (encrypt_string svc text key) s stored s'
      → (w : W) × (encrypt_with svc.primitives (svc.fill_nonce w).0 text key ≡ ok stored)
  unfolding encrypt_string fill_nonce
  Returns-encrypt_string svc text key s r =
      let (key', s₁, p₁, r₁) = Returns-bind _ _ s r in
      let (nonce, s₂, p₂, r₂) = Returns-bind _ _ s₁ r₁ in
      (
        s₁.world,
        ap (λ n. encrypt_with svc.primitives n text key) (ok-inj (ap (λ x. x.0) p₂))
            ∙ ap (λ x. x.0) r₂,
      )
