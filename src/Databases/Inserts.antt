-- ===== src/Databases/Inserts.antt =====
-- The steps of a request for a database, and its insert: api/src/handlers/databases.rs (lines 119 to 212).
use dbsaa_s.Prelude.{
  ℕ, zero, suc, ◌≡◌, refl, sym, ◌∙◌, ap, subst, Bool, true, false, not, Option, none, some, [], ◌∷◌,
  ◌++◌, String, ◌⊎◌, inl, inr, any,
}
use dbsaa_s.Prelude.Int.{ℤ}
use dbsaa_s.Models.{DatabaseInstance, F64}
use dbsaa_s.Errors.{AppError, Result, ok, err}
use dbsaa_s.Config.{Config}
use dbsaa_s.Platform.{
  State, M, Services, throw_if, pure, gets, modify, run, new_uuid, now_utc, attempt, ◌>>=◌, ◌>>◌,
}
use dbsaa_s.Platform.Rules.{At, Keeps, IsInner, At-pure, At-gets, At-throw_if, At-or_throw}
use dbsaa_s.Platform.Returns.{
  Returns, ok-inj, Returns-bind, Returns-pure, IsSameTables, IsSameTables-trans, Returns-new_uuid,
}
use dbsaa_s.Repository.Databases.{NewDatabase, new_row, counted, refers, clashes}
use dbsaa_s.Repository.Databases
use dbsaa_s.Repository.Servers
use dbsaa_s.Repository.Networks.{duplicate_key, foreign_key}
use dbsaa_s.Repository.Billing.{get_plan_template}
use dbsaa_s.Databases.Resources.{
  resolve_plan, select_server, generate_random_string, encrypt_string, random_index, fill_nonce,
}
use dbsaa_s.Databases.Create.{insert_database, retry}
use dbsaa_s.Databases.Quiet.{At-then}

pub kept :
    {W A : Type 0} {m : M W A} {s s' : State W} {a : A} {I : State W → Type 0}
    → At I s m
    → Returns m s a s'
    → I s'
kept {I = I} h r = subst I (ap (λ x. x.1) r) h.at

module _ {W : Type 0} (I : State W → Type 0) where
  pub Keeps-resolve_plan :
      (plan : Option ℕ) (cpu : Option F64) (memory : Option ℤ)
      → Keeps I (resolve_plan plan cpu memory)
  unfolding resolve_plan get_plan_template
  Keeps-resolve_plan none cpu memory s i = At-pure _ i
  Keeps-resolve_plan (some id) cpu memory s i =
      At-gets _ _ (At-or_throw _ _ _ i λ plan _. At-throw_if _ _ _ i λ _. At-pure _ i)

  pub Keeps-select_server :
      (n : ℕ) (e : AppError) (server : Option ℕ) → Keeps I (select_server n e server)
  unfolding select_server Servers.select_best_client_server Servers.find_active_client_by_id
      Servers.count_containers_on_server gets
  Keeps-select_server n e none s i = record { at = i }
  Keeps-select_server n e (some id) s i =
      At-gets _ _
        (At-or_throw _ _ _ i λ server _. At-gets _ _ (At-throw_if _ _ _ i λ _. At-pure _ i))

module _ {W : Type 0} (svc : Services W) (I : State W → Type 0) (inner : IsInner I) where
  Keeps-random_index : Keeps I (random_index svc)
  unfolding random_index
  Keeps-random_index s i = record { at = inner s _ i }

  pub Keeps-generate_random_string : (n : ℕ) → Keeps I (generate_random_string svc n)
  unfolding generate_random_string
  Keeps-generate_random_string zero s i = At-pure _ i
  Keeps-generate_random_string (suc n) s i =
      At-then _ _ (Keeps-random_index s i)
        λ x t j. At-then _ _ (Keeps-generate_random_string n t j) λ rest t j. At-pure _ j

  Keeps-fill_nonce : Keeps I (fill_nonce svc)
  unfolding fill_nonce
  Keeps-fill_nonce s i = record { at = inner s _ i }

  pub Keeps-encrypt_string : (text key : String) → Keeps I (encrypt_string svc text key)
  unfolding encrypt_string
  Keeps-encrypt_string text key s i =
      At-then _ _ (record { at = i })
        λ _ t j. At-then _ _ (Keeps-fill_nonce t j) λ nonce t j. record { at = j }

-- `s'` is `s` with the row, in another world.
abbrev pub IsInserted : {W : Type 0} → NewDatabase → State W → State W → DatabaseInstance → Type 0
IsInserted {W} new s s' row =
    (id t : ℕ) × (w : W) × (row ≡ new_row new id t)
    × (s' ≡ record s { instances = s.instances ++ (row ∷ []); world = w })

abbrev insert_row : {W : Type 0} → Bool → Bool → DatabaseInstance → M W DatabaseInstance
insert_row taken known row =
    throw_if taken duplicate_key
    >> (throw_if (not known) foreign_key
        >> (modify (λ s. record s { instances = s.instances ++ (row ∷ []) }) >> pure row))

abbrev IsAttempt : {W : Type 0} → NewDatabase → State W → Result DatabaseInstance × State W → Type 0
IsAttempt {W} new s x =
    ((e : AppError) × (w : W) × (x ≡ (err e, record s { world = w })))
    ⊎ ((row : DatabaseInstance) × (s' : State W) × (x ≡ (ok row, s')) × IsInserted new s s' row)

insert_row-IsAttempt :
    {W : Type 0} (taken known : Bool) (new : NewDatabase) (id t : ℕ) (s : State W) (w : W)
    → IsAttempt new s (insert_row taken known (new_row new id t) (record s { world = w }))
unfolding run
insert_row-IsAttempt true known new id t s w = inl (duplicate_key, w, refl)
insert_row-IsAttempt false false new id t s w = inl (foreign_key, w, refl)
insert_row-IsAttempt false true new id t s w = inr (
  new_row new id t,
  record s { instances = s.instances ++ (new_row new id t ∷ []); world = w },
  refl,
  (id, t, w, refl, refl),
)

module _ {W : Type 0} (svc : Services W) where
  create-IsAttempt :
      (new : NewDatabase) (s : State W) → IsAttempt new s (Databases.create svc new s)
  unfolding Databases.create run new_uuid now_utc
  create-IsAttempt new s =
      insert_row-IsAttempt (any (clashes (svc.uuid s.world).0 new) s.instances) (refers s new) new
        (svc.uuid s.world).0 (svc.now (svc.uuid s.world).1).0 s (svc.now (svc.uuid s.world).1).1

  pub created_after :
      (new : NewDatabase) (s s₁ : State W) {row : DatabaseInstance} {s' : State W}
      → IsSameTables s s₁
      → Returns (Databases.create svc new) s₁ row s'
      → IsInserted new s s' row
  created_after new s s₁ {row} {s'} (w, same) r = elim (create-IsAttempt new s₁) [
    | inl (e, w', stop) ↦ let bad : err e ≡ ok row = ap (λ x. x.0) (sym stop ∙ r) in cc
    | inr (row', s₂, put, (id, t, w', made, grown)) ↦
        let same_row : row' ≡ row = ok-inj (ap (λ x. x.0) (sym put ∙ r)) in
        let same_state : s₂ ≡ s' = ap (λ x. x.1) (sym put ∙ r) in
        let grow : State W → State W =
          λ x. record x { instances = x.instances ++ (row' ∷ []); world = w' } in
        let named : DatabaseInstance → State W =
          λ y. record s { instances = s.instances ++ (y ∷ []); world = w' } in
        (
          id,
          t,
          w',
          sym same_row ∙ made,
          sym same_state ∙ (grown ∙ (ap grow same ∙ ap named same_row)),
        )
  ]

-- The row is there, under one of the names that were tried.
abbrev pub IsNew :
    {W : Type 0} → (String → NewDatabase) → State W → State W → DatabaseInstance → Type 0
IsNew new s s' row = (sub : String) × IsInserted (new sub) s s' row

module _ {W : Type 0} (svc : Services W) (cfg : Config) where
  retry-IsNew :
      (new : String → NewDatabase) (name sub : String) (s s₁ : State W)
      (x : Result DatabaseInstance × State W) {row : DatabaseInstance} {s' : State W}
      → IsSameTables s s₁
      → IsAttempt (new sub) s₁ x
      → Returns (retry svc cfg new name x.0) x.1 row s'
      → IsNew new s s' row
  retry-IsNew new name sub s s₁ x {row} {s'} same (inl (e, w, failed)) r =
      let again : Returns (retry svc cfg new name (err e)) (record s₁ { world = w }) row s' =
        subst (λ y. Returns (retry svc cfg new name y.0) y.1 row s') failed r in
      let (id, s₂, r₁, r₂) = Returns-bind _ _ _ again in
      let same₂ = IsSameTables-trans s s₁ _ same (w, refl) in
      (_, created_after svc _ s s₂ (IsSameTables-trans s _ s₂ same₂ (Returns-new_uuid svc _ r₁)) r₂)
  retry-IsNew new name sub s s₁ x {row} {s'} (w, same)
        (inr (row', s₂, put, (id, t, w', made, grown))) r =
      let done : Returns (retry svc cfg new name (ok row')) s₂ row s' =
        subst (λ y. Returns (retry svc cfg new name y.0) y.1 row s') put r in
      let (same_row, stay) = Returns-pure row' s₂ done in
      let grow : State W → State W =
        λ x. record x { instances = x.instances ++ (row' ∷ []); world = w' } in
      let named : DatabaseInstance → State W =
        λ y. record s { instances = s.instances ++ (y ∷ []); world = w' } in
      (sub, (id, t, w', sym same_row ∙ made, stay ∙ (grown ∙ (ap grow same ∙ ap named same_row))))

  pub insert_database-IsNew :
      (new : String → NewDatabase) (name : String) (s : State W) {row : DatabaseInstance}
      {s' : State W}
      → Returns (insert_database svc cfg new name) s row s'
      → IsNew new s s' row
  unfolding insert_database attempt ◌>>=◌ new_uuid
  insert_database-IsNew new name s r =
      let same : IsSameTables s (new_uuid svc s).1 = fresh in
      retry-IsNew new name _ s (new_uuid svc s).1 _ same (create-IsAttempt svc _ (new_uuid svc s).1)
        r
    where
      fresh : IsSameTables s (new_uuid svc s).1
      fresh = Returns-new_uuid svc s refl
