-- ===== src/Errors/Replies.antt =====
-- What a reply of api/src/error.rs reveals of an error.
use dbsaa_s.Prelude.{◌≡◌, refl, ◌⊎◌, ◌≤◌, ◌<◌, arith, String}
use dbsaa_s.Errors.{AppError, into_response}

-- The same error with another text.
abbrev pub retell : String → AppError → AppError
retell t (AppError.not_found _) = AppError.not_found t
retell t (AppError.bad_request _) = AppError.bad_request t
retell t (AppError.conflict _) = AppError.conflict t
retell t (AppError.internal _) = AppError.internal t
retell t (AppError.database _) = AppError.database t
retell t (AppError.docker _) = AppError.docker t
retell t (AppError.jwt _) = AppError.jwt t
retell t (AppError.json_rejection _) = AppError.json_rejection t
retell t (AppError.path_rejection _) = AppError.path_rejection t
retell t e = e

-- Every reply is an HTTP client or server error (400 to 599), a server error's reply (500 or more)
-- and a refused credential's (401) is the same whatever text the error carries, so neither the
-- database's, nor Docker's, nor the program's own internal messages reach a client.
pub into_response_hides :
    (e : AppError) (t : String)
    → (400 ≤ (into_response e).0)
      × ((into_response e).0 < 600)
      × ((500 ≤ (into_response e).0) ⊎ ((into_response e).0 ≡ 401)
          → into_response (retell t e) ≡ into_response e)
unfolding into_response
into_response_hides (AppError.not_found _) t = (omega arith, omega arith, λ h. absurd (omega arith))
into_response_hides (AppError.bad_request _) t =
    (omega arith, omega arith, λ h. absurd (omega arith))
into_response_hides (AppError.conflict _) t = (omega arith, omega arith, λ h. absurd (omega arith))
into_response_hides e t = (omega arith, omega arith, λ h. refl)
