-- ===== src/Tests/AdminExamples.antt =====
-- Examples for accounts, alerts, addresses and the endpoints of the administrator.
use dbsaa_s.Prelude.{ℕ, ◌≡◌, refl, arith, true, false, none, some, String, map, [], ◌∷◌, any}
use dbsaa_s.Prelude.Int.{pos}
use dbsaa_s.Models.{AuthUser}
use dbsaa_s.Models.Roles.{UserRole}
use dbsaa_s.Models.Access.{User}
use dbsaa_s.Models.Records.{AlertRule}
use dbsaa_s.Errors.{Result, ok}
use dbsaa_s.Platform.{State, run, new_uuid, now_utc, ◌>>=◌}
use dbsaa_s.Platform.Returns.{Returns}
use dbsaa_s.Repository.Users
use dbsaa_s.Repository.Databases
use dbsaa_s.Repository.Alerts
use dbsaa_s.Repository.Invitations
use dbsaa_s.Databases.Resources.{generate_random_string, random_index}
use dbsaa_s.Net.{IpAddr, is_internal_ip}
use dbsaa_s.Net.Blocks.{number, in_block, internal_blocks, is_internal_ip-blocks}
use dbsaa_s.Auth.{Tokens, create_token, auth_middleware, admin_middleware}
use dbsaa_s.Auth.Handlers.{CreateUserRequest, AuthResponse, register}
use dbsaa_s.Auth.Registration.{IsRegistered, register-IsRegistered}
use dbsaa_s.Auth.Current.{IsCurrent, admin_middleware-IsCurrent}
use dbsaa_s.Alerts.{Outside, validate_webhook_url}
use dbsaa_s.Alerts.Handlers.{CreateAlertRuleRequest, create_alert}
use dbsaa_s.Alerts.Safety.{IsRaised, create_alert-IsRaised}
use dbsaa_s.Admin.{create_invitation}
use dbsaa_s.Admin.Refused.{IsFailure, create_invitation-IsFailure}
use dbsaa_s.Admin.Invited.{AllWithin, Invitings, InviteStep, Invitings-AllWithin}
use dbsaa_s.Tests.Fixtures.{svc, cfg, alice, empty}

-- Every token is one of user 7, who was no administrator when it was made.
abbrev tokens : Tokens ℕ
tokens = record {
  decode = λ token secret w.
      (ok (record { sub = 7; email = "alice@example.org"; role = UserRole.user; exp = 0 }), w);
  encode = λ claims secret. ok "token";
  hash_api_key = λ key. key;
  hash_password = λ password w. (ok password, w);
  verify_password = λ password hash. ok true;
  is_email = λ s. true;
}

abbrev alice_row : User
alice_row = record {
  id = 7;
  email = "alice@example.org";
  password_hash = "hash";
  role = UserRole.admin;
  api_key = none;
  max_databases = pos 5;
  stripe_customer_id = none;
  created_at = 0;
  updated_at = 0;
}

abbrev root : AuthUser
root = record alice { role = UserRole.admin }

abbrev with_alice : State ℕ
with_alice = record empty { users = alice_row ∷ [] }

passed :
    Returns
      (auth_middleware tokens cfg (some "Bearer t") >>= λ u. admin_middleware (some u))
      with_alice
      root
      with_alice
unfolding auth_middleware admin_middleware Users.find_by_id run
passed = refl

admin_middleware-IsCurrent_example :
    IsCurrent tokens cfg (some "Bearer t") with_alice with_alice root × (root.role ≡ UserRole.admin)
admin_middleware-IsCurrent_example =
    admin_middleware-IsCurrent tokens cfg (some "Bearer t") with_alice passed

abbrev dave : CreateUserRequest
dave = record { email = "dave@example.org"; password = "correct horse"; invitation_code = none }

abbrev registered : Result AuthResponse × State ℕ
registered = register svc tokens cfg dave with_alice

abbrev welcome : AuthResponse
welcome = record {
  token = "token";
  user = record { id = 100; email = "dave@example.org"; role = UserRole.user };
}

joined : register svc tokens cfg dave with_alice ≡ (ok welcome, registered.1)
unfolding register Users.find_by_email Users.create create_token run new_uuid now_utc
joined = refl

register-IsRegistered_example : IsRegistered svc tokens cfg dave with_alice registered.1 welcome
register-IsRegistered_example = register-IsRegistered svc tokens cfg dave with_alice joined

create_invitation-IsFailure_example :
    IsFailure with_alice (create_invitation svc none (some (pos 24)) with_alice)
create_invitation-IsFailure_example =
    create_invitation-IsFailure svc with_alice none (some (pos 24)) refl

-- A user with the identifier that the endpoint writes as the creator, so that an invitation is made.
abbrev with_nil : State ℕ
with_nil = record empty { users = record alice_row { id = 0; email = "nil@example.org" } ∷ [] }

abbrev invited : State ℕ
invited = (create_invitation svc (some (pos 1)) none with_nil).1

abbrev guest : String → CreateUserRequest
guest email = record {
  email = email;
  password = "correct horse";
  invitation_code = some "CDEFGHIJKLMNOPQR";
}

abbrev first_used : State ℕ
first_used = (register svc tokens cfg (guest "carol@example.org") invited).1

abbrev used_again : State ℕ
used_again = (register svc tokens cfg (guest "erin@example.org") first_used).1

-- The one use that the invitation had is taken by the first guest; the second joins without it.
one_use :
    (map (λ i. i.use_count) invited.invitations ≡ pos 0 ∷ [])
    × (map (λ i. i.use_count) first_used.invitations ≡ pos 1 ∷ [])
    × (map (λ i. i.use_count) used_again.invitations ≡ pos 1 ∷ [])
    × (map (λ i. i.max_uses) used_again.invitations ≡ pos 1 ∷ [])
unfolding create_invitation register generate_random_string random_index Invitations.create
    Invitations.use_invitation Invitations.find_by_code Users.find_by_email Users.create
    create_token run new_uuid now_utc
one_use = (refl, refl, refl, refl)

Invitings-AllWithin_example : AllWithin used_again
Invitings-AllWithin_example = Invitings-AllWithin svc tokens cfg tt (
    Invitings.next
      (Invitings.next
        (Invitings.next Invitings.done (InviteStep.invited (some (pos 1)) none with_nil))
        (InviteStep.registered (guest "carol@example.org") invited))
      (InviteStep.registered (guest "erin@example.org") first_used))

is_internal_ip-blocks_example :
    is_internal_ip (IpAddr.v4 172 20 0 1) ≡ any (in_block (number 172 20 0 1)) internal_blocks
is_internal_ip-blocks_example =
    is_internal_ip-blocks 172 20 0 1 (omega arith) (omega arith) (omega arith) (omega arith)

-- A resolver that knows one public address, and numbers for floating-point numbers.
abbrev outside : Outside ℕ
outside = record {
  parse = λ url. some (record { scheme = "https"; host_str = some "example.org"; port = none });
  resolve = λ address w. (some (IpAddr.v4 93 184 216 34 ∷ []), w);
  send_webhook = λ url event message w. w;
  send_email = λ to event message w. w;
  stats = λ docker container_id w. (none, w);
  of_ℕ = λ n. n;
  minus = λ a b. a;
  over = λ a b. a;
  times = λ a b. a;
  is_above = λ a b. false;
  show_f64 = λ a. "";
}

abbrev hook : CreateAlertRuleRequest
hook = record {
  database_id = some 50;
  event_type = "db_down";
  webhook_url = some "https://example.org";
  email = none;
  enabled = none;
}

abbrev rule : AlertRule
rule = record {
  id = 100;
  user_id = 7;
  database_id = some 50;
  event_type = "db_down";
  webhook_url = some "https://example.org";
  email = none;
  enabled = true;
  created_at = 101;
}

abbrev raised : Result AlertRule × State ℕ
raised = create_alert svc outside alice hook with_alice

rule_made : create_alert svc outside alice hook with_alice ≡ (ok rule, raised.1)
unfolding create_alert validate_webhook_url Alerts.create_rule Databases.find_by_id is_internal_ip
    run new_uuid now_utc
rule_made = refl

create_alert-IsRaised_example : IsRaised outside alice hook with_alice raised.1 rule
create_alert-IsRaised_example = create_alert-IsRaised svc outside alice hook with_alice rule_made
