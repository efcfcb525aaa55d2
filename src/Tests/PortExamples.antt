-- ===== src/Tests/PortExamples.antt =====
-- Examples for the port pool and the error replies.
use dbsaa_s.Prelude.{
  ◌≡◌, ◌≤◌, ◌<◌, ◌⊎◌, refl, false, [], ◌∷◌, any, ltb, ◌==◌, ◌||◌, ◌&&◌, if◌then◌else◌, some,
}
use dbsaa_s.Prelude.Int.{pos, negsuc}
use dbsaa_s.Ports.{PortPool, contains, load_allocated, allocate, release, scan}
use dbsaa_s.Ports.Laws.{
  Allocates, allocate-Allocates, contains-release, release-allocate, is_port,
  contains-load_allocated,
}
use dbsaa_s.Errors.{AppError, into_response}
use dbsaa_s.Errors.Replies.{retell, into_response_hides}
use dbsaa_s.Tests.Fixtures.{small_pool}

abbrev small_pool' : PortPool
small_pool' = record small_pool { allocated = 10001 ∷ 10000 ∷ [] }

allocated : allocate small_pool ≡ (some 10001, small_pool')
unfolding allocate scan
allocated = refl

allocate-Allocates_example : Allocates small_pool (allocate small_pool)
allocate-Allocates_example = allocate-Allocates small_pool

contains-release_example :
    contains (release small_pool 10000) 10000
    ≡ (if 10000 == 10000 then false else contains small_pool 10000)
contains-release_example = contains-release small_pool 10000 10000

release-allocate_example : contains (release small_pool' 10001) 10001 ≡ contains small_pool 10001
release-allocate_example = release-allocate small_pool allocated 10001

contains-load_allocated_example :
    contains (load_allocated small_pool (pos 10002 ∷ negsuc 4 ∷ pos 70000 ∷ [])) 10002 ≡ (
      contains small_pool 10002
      || (ltb 10002 65536 && any (is_port 10002) (pos 10002 ∷ negsuc 4 ∷ pos 70000 ∷ [])))
contains-load_allocated_example =
    contains-load_allocated small_pool (pos 10002 ∷ negsuc 4 ∷ pos 70000 ∷ []) 10002

into_response_hides_example :
    (400 ≤ (into_response (AppError.database "no such table")).0)
    × ((into_response (AppError.database "no such table")).0 < 600)
    × ((500 ≤ (into_response (AppError.database "no such table")).0)
          ⊎ ((into_response (AppError.database "no such table")).0 ≡ 401)
        → into_response (retell "" (AppError.database "no such table"))
          ≡ into_response (AppError.database "no such table"))
into_response_hides_example = into_response_hides (AppError.database "no such table") ""
