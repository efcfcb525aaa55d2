-- ===== src/Repository/Invitations.antt =====
-- Invitations: api/src/repository/invitation_repo.rs, with the constraints of migration 003.
use dbsaa_s.Prelude.{
  ℕ, Bool, true, not, Option, none, some, List, [], ◌∷◌, ◌++◌, String, str_eq, ◌==◌, ◌&&◌, ◌||◌,
  ltb, leb, sort_by, suc, zero, find, update, delete, any,
}
use dbsaa_s.Prelude.Int.{ℤ, pos, negsuc, leb_ℤ}
use dbsaa_s.Models.Access.{Invitation}
use dbsaa_s.Platform.{M, Services, pure, gets, modify, throw_if, new_uuid, now_utc, ◌>>=◌, ◌>>◌}
use dbsaa_s.Repository.Networks.{duplicate_key, foreign_key}
use dbsaa_s.Repository.Users.{is_user}

-- `expires_at IS NULL OR expires_at > NOW()`
abbrev pub is_open_at : ℕ → Option ℕ → Bool
is_open_at now none = true
is_open_at now (some expires_at) = ltb now expires_at

-- What the `WHERE` of `use_invitation` asks for.
abbrev pub usable : String → ℕ → Invitation → Bool
usable code now i =
    str_eq i.code code && (not (leb_ℤ i.max_uses i.use_count) && is_open_at now i.expires_at)

-- `use_count + 1`, which is at most `max_uses`, so that it cannot be out of range.
abbrev pub suc_ℤ : ℤ → ℤ
suc_ℤ (pos n) = pos (suc n)
suc_ℤ (negsuc zero) = pos 0
suc_ℤ (negsuc (suc n)) = negsuc n

abbrev pub used_once : ℕ → Invitation → Invitation
used_once user_id i = record i { use_count = suc_ℤ i.use_count; used_by = some user_id }

module _ {W : Type 0} where
  unfoldable pub find_by_code : String → M W (Option Invitation)
  find_by_code code = gets (λ s. find (λ i. str_eq i.code code) s.invitations)

  unfoldable pub list_all : M W (List Invitation)
  list_all = gets (λ s. sort_by (λ a b. leb b.created_at a.created_at) s.invitations)

  unfoldable pub delete_row : ℕ → M W (Unit {0})
  delete_row id = modify (λ s. record s { invitations = delete (λ i. i.id == id) s.invitations })

module _ {W : Type 0} (svc : Services W) where
  unfoldable pub create : String → ℕ → ℤ → Option ℕ → M W Invitation
  create code created_by max_uses expires_at = do
    id ← new_uuid svc
    t ← now_utc svc
    taken ← gets (λ s. any (λ i. i.id == id || str_eq i.code code) s.invitations)
    known ← gets (λ s. any (is_user created_by) s.users)
    throw_if taken duplicate_key
    throw_if (not known) foreign_key
    let row : Invitation = record {
      id = id;
      code = code;
      created_by = created_by;
      used_by = none;
      max_uses = max_uses;
      use_count = pos 0;
      expires_at = expires_at;
      created_at = t;
    }
    modify (λ s. record s { invitations = s.invitations ++ (row ∷ []) })
    pure row

  -- Whether a row was changed. (`used_by` refers to a user.)
  unfoldable pub use_invitation : String → ℕ → M W Bool
  use_invitation code user_id = do
    t ← now_utc svc
    hit ← gets (λ s. any (usable code t) s.invitations)
    known ← gets (λ s. any (is_user user_id) s.users)
    throw_if (hit && not known) foreign_key
    modify
        (λ s. record s { invitations = update (usable code t) (used_once user_id) s.invitations })
    pure hit
