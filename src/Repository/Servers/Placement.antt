-- ===== src/Repository/Servers/Placement.antt =====
-- Which server a new database goes to: api/src/repository/docker_server_repo.rs (lines 144 to 165).
use dbsaa_s.Prelude.{
  ◌≡◌, refl, sym, ◌∙◌, ap, subst, Bool, true, false, Option, none, some, List, [], ◌∷◌, ◌&&◌, ◌⊎◌,
  inl, inr, leb→le, select, All, arith, if◌then◌else◌, ◌<◌, All-map, and-left, and-right, not-true,
}
use dbsaa_s.Prelude.Int.{ℤ, pos_part, leb_ℤ, ◌≤ℤ◌, suc-le}
use dbsaa_s.Models.{DatabaseInstance, DockerServer}
use dbsaa_s.Errors.{ok}
use dbsaa_s.Platform.{State, run}
use dbsaa_s.Repository.Servers.{
  is_active_client, has_room, containers_on, room, roomier, best, select_best_client_server,
}

abbrev pub Among : {A : Type 0} → A → List A → Type 0
Among v [] = ⊥
Among v (u ∷ us) = (v ≡ u) ⊎ Among v us

Among-select :
    {A : Type 0} (p : A → Bool) (v : A) (l : List A)
    → Among v (select p l)
    → Among v l × (p v ≡ true)
Among-select p v [] h = absurd h
Among-select p v (u ∷ us) h = go (p u) refl h (Among-select p v us)
  where
    go :
        (b : Bool)
        → p u ≡ b
        → Among v (if b then u ∷ select p us else select p us)
        → (Among v (select p us) → Among v us × (p v ≡ true))
        → ((v ≡ u) ⊎ Among v us) × (p v ≡ true)
    go true e (inl same) ih = (inl same, ap p same ∙ e)
    go true e (inr later) ih = let (m, q) = ih later in (inr m, q)
    go false e later ih = let (m, q) = ih later in (inr m, q)

≤ℤ-refl : (a : ℤ) → a ≤ℤ a
≤ℤ-refl a = omega arith

≤ℤ-trans : (a b c : ℤ) → a ≤ℤ b → b ≤ℤ c → a ≤ℤ c
≤ℤ-trans a b c h k = omega arith

module _ (instances : List DatabaseInstance) where
  abbrev pub Roomiest : DockerServer → List DockerServer → Type 0
  Roomiest v servers = All (λ u. room instances u ≤ℤ room instances v) servers

  -- The choice from a list of candidates: none if there are none, or one of them with the most room.
  abbrev IsBest : List DockerServer → Option DockerServer → Type 0
  IsBest servers none = servers ≡ []
  IsBest servers (some v) = Among v servers × Roomiest v servers

  roomier-IsBest :
      (s : DockerServer) (rest : List DockerServer) (o : Option DockerServer)
      → IsBest rest o
      → IsBest (s ∷ rest) (roomier instances s o)
  roomier-IsBest s rest none e =
      (inl refl, (≤ℤ-refl (room instances s), subst (Roomiest s) (sym e) tt))
  roomier-IsBest s rest (some t) (mem, most) = go (leb_ℤ (room instances t) (room instances s)) refl
    where
      go :
          (b : Bool)
          → leb_ℤ (room instances t) (room instances s) ≡ b
          → IsBest (s ∷ rest) (if b then some s else some t)
      go true e = (
        inl refl,
        (
          ≤ℤ-refl (room instances s),
          All-map (λ u. room instances u ≤ℤ room instances t)
              (λ u. room instances u ≤ℤ room instances s)
              (λ u h.
                ≤ℤ-trans (room instances u) (room instances t) (room instances s) h (leb→le _ _ e))
              rest most,
        ),
      )
      go false e = (inr mem, (ground arith, most))

  best-IsBest : (servers : List DockerServer) → IsBest servers (best instances servers)
  best-IsBest [] = refl
  best-IsBest (s ∷ rest) = roomier-IsBest s rest (best instances rest) (best-IsBest rest)

abbrev pub candidates : {W : Type 0} → State W → List DockerServer
candidates s = select (λ v. is_active_client v && has_room s.instances v) s.servers

-- What a client of the repository may rely on.
abbrev pub IsPlaced : {W : Type 0} → State W → Option DockerServer → Type 0
IsPlaced s none = candidates s ≡ []
IsPlaced s (some v) =
    Among v s.servers
    × (is_active_client v ≡ true)
    × (containers_on s.instances v.id < pos_part v.max_containers)
    × Roomiest s.instances v (candidates s)

best-IsPlaced :
    {W : Type 0} (s : State W) (o : Option DockerServer)
    → IsBest s.instances (candidates s) o
    → IsPlaced s o
best-IsPlaced s none h = h
best-IsPlaced s (some v) (mem, most) =
    let (there, fit) =
      Among-select (λ v. is_active_client v && has_room s.instances v) v s.servers mem in
    (
      there,
      and-left _ _ fit,
      suc-le v.max_containers (containers_on s.instances v.id) (not-true _ (and-right _ _ fit)),
      most,
    )

-- The server chosen for a new database is an active one for clients that has fewer containers than it may have,
-- and none of these has more room; where none is chosen, there is none. The choice changes nothing.
pub select_best_client_server-IsPlaced :
    {W : Type 0} (s : State W)
    → (o : Option DockerServer) × (select_best_client_server s ≡ (ok o, s)) × IsPlaced s o
unfolding select_best_client_server run
select_best_client_server-IsPlaced s = (
  best s.instances (candidates s),
  refl,
  best-IsPlaced s _ (best-IsBest s.instances (candidates s)),
)
