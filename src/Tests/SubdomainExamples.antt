-- ===== src/Tests/SubdomainExamples.antt =====
-- An example for subdomains.
use Prim.Native.String.{len}
use dbsaa_s.Prelude.{◌≤◌, ◌≡◌, refl}
use dbsaa_s.Subdomain.{generate_subdomain}
use dbsaa_s.Subdomain.Bounds.{generate_subdomain_le}

small_name :
    generate_subdomain (λ s. "my_test db") "My_Test DB" "a1b2c3d4-e5f6-7890-abcd-ef1234567890"
    ≡ "my-test-db-a1b2c3d4.db"
unfolding generate_subdomain
small_name = refl

generate_subdomain_le_example :
    len (generate_subdomain (λ s. "my_test db") "My_Test DB" "a1b2c3d4-e5f6-7890-abcd-ef1234567890")
    ≤ 60
generate_subdomain_le_example =
    generate_subdomain_le (λ s. "my_test db") "My_Test DB" "a1b2c3d4-e5f6-7890-abcd-ef1234567890"
