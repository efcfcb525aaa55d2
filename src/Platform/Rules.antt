-- ===== src/Platform/Rules.antt =====
-- Rules for what a call leaves behind, one for each way to build a call. `At I s m`: run at `s`, the
-- call `m` ends in a state with `I`, whether it returns or fails.
use dbsaa_s.Prelude.{◌≡◌, refl, subst, sym, Bool, true, false, Option, none, some, List, [], ◌∷◌}
use dbsaa_s.Errors.{AppError, Result, ok, err}
use dbsaa_s.Platform.{
  State, M, Call, Services, pure, gets, modify, throw_if, or_throw, call, ignore, attempt, ◌>>=◌,
  ◌>>◌, for_each, new_uuid, now_utc,
}

pub record At {W A : Type 0} (I : State W → Type 0) (s : State W) (m : M W A) : Type 0 where
  pub at : I (m s).1

-- From every state with `I`.
abbrev pub Keeps : {W A : Type 0} → (State W → Type 0) → M W A → Type 0
Keeps {W} I m = (s : State W) → I s → At I s m

-- `I` says nothing of the world outside.
abbrev pub IsInner : {W : Type 0} → (State W → Type 0) → Type 0
IsInner {W} I = (s : State W) (w : W) → I s → I (record s { world = w })

module _ {W : Type 0} {I : State W → Type 0} {s : State W} where
  pub At-pure : {A : Type 0} (a : A) → I s → At I s (pure a)
  unfolding pure
  At-pure a i = record { at = i }

  pub At-gets :
      {A B : Type 0} (f : State W → A) (k : A → M W B) → At I s (k (f s)) → At I s (gets f >>= k)
  unfolding gets ◌>>=◌
  At-gets f k h = record { at = h.at }

  pub At-modify : (f : State W → State W) → I (f s) → At I s (modify f)
  unfolding modify
  At-modify f i = record { at = i }

  pub At-throw_if :
      {B : Type 0} (c : Bool) (e : AppError) (k : M W B)
      → I s
      → (c ≡ false → At I s k)
      → At I s (throw_if c e >> k)
  unfolding throw_if ◌>>=◌
  At-throw_if true e k i h = record { at = i }
  At-throw_if false e k i h = record { at = (h refl).at }

  pub At-or_throw :
      {A B : Type 0} (o : Option A) (e : AppError) (k : A → M W B)
      → I s
      → ((a : A) → o ≡ some a → At I s (k a))
      → At I s (or_throw o e >>= k)
  unfolding or_throw ◌>>=◌
  At-or_throw none e k i h = record { at = i }
  At-or_throw (some a) e k i h = record { at = (h a refl).at }

  pub At-call : {A : Type 0} (f : Call W A) → IsInner I → I s → At I s (call f)
  unfolding call
  At-call f inner i = record { at = inner s _ i }

  pub At-ignore : {A : Type 0} (m : M W A) → At I s m → At I s (ignore m)
  unfolding ignore
  At-ignore m h = record { at = h.at }

  pub At-attempt : {A : Type 0} (m : M W A) → At I s m → At I s (attempt m)
  unfolding attempt
  At-attempt m h = record { at = h.at }

  pub At-both :
      {A : Type 0} {J : State W → Type 0} {m : M W A}
      → At I s m
      → At J s m
      → At (λ t. I t × J t) s m
  At-both h k = record { at = (h.at, k.at) }

  pub At-new_uuid : (svc : Services W) → IsInner I → I s → At I s (new_uuid svc)
  unfolding new_uuid
  At-new_uuid svc inner i = record { at = inner s _ i }

  pub At-now_utc : (svc : Services W) → IsInner I → I s → At I s (now_utc svc)
  unfolding now_utc
  At-now_utc svc inner i = record { at = inner s _ i }

bind_after :
    {W A B : Type 0} {I : State W → Type 0} (J : State W → Type 0) (r : Result A) (s' : State W)
    (k : A → M W B)
    → J s'
    → (J s' → I s')
    → ((a : A) → At I s' (k a))
    → I (elim r as (λ _. Result B × State W) [ ok a ↦ k a s' | err e ↦ (err e, s') ]).1
bind_after J (ok a) s' k j weaken h = (h a).at
bind_after J (err e) s' k j weaken h = weaken j

module _ {W A B : Type 0} {I J : State W → Type 0} {s : State W} where
  -- The step keeps `J`, which may say more than `I`.
  pub At-bind :
      (m : M W A) (k : A → M W B)
      → At J s m
      → ((s' : State W) → J s' → I s')
      → ((a : A) (s' : State W) → J s' → At I s' (k a))
      → At I s (m >>= k)
  unfolding ◌>>=◌
  At-bind m k h weaken rest = record {
    at = bind_after J (m s).0 (m s).1 k h.at (weaken (m s).1) (λ a. rest a (m s).1 h.at);
  }

pub >>=_assoc :
    {W A B C : Type 0} (r : Result A) (s : State W) (f : A → M W B) (k : B → M W C)
    → (((λ _. (r, s)) >>= f) >>= k) s ≡ ((λ _. (r, s)) >>= λ a. f a >>= k) s
unfolding ◌>>=◌
>>=_assoc (ok a) s f k = refl
>>=_assoc (err e) s f k = refl

module _ {W A B : Type 0} {I : State W → Type 0} {s : State W} where
  pub At-pure_bind : (a : A) (k : A → M W B) → At I s (k a) → At I s (pure a >>= k)
  unfolding pure ◌>>=◌
  At-pure_bind a k h = record { at = h.at }

  pub At-assoc :
      {C : Type 0} (m : M W A) (f : A → M W B) (k : B → M W C)
      → At I s (m >>= λ a. f a >>= k)
      → At I s ((m >>= f) >>= k)
  unfolding ◌>>=◌
  At-assoc m f k h = record { at = subst (λ x. I x.1) (sym (>>=_assoc (m s).0 (m s).1 f k)) h.at }

module _ {W : Type 0} {I : State W → Type 0} where
  pub Keeps-for_each :
      {A : Type 0} (xs : List A) (body : A → M W (Unit {0}))
      → ((x : A) → Keeps I (body x))
      → Keeps I (for_each xs body)
  unfolding for_each
  Keeps-for_each [] body h s i = At-pure tt i
  Keeps-for_each (x ∷ xs) body h s i =
      At-bind (body x) _ (h x s i) (λ s' j. j) (λ a s' j. Keeps-for_each xs body h s' j)

  pub Keeps-throw_if : (c : Bool) (e : AppError) → Keeps I (throw_if c e)
  unfolding throw_if
  Keeps-throw_if true e s i = record { at = i }
  Keeps-throw_if false e s i = record { at = i }
