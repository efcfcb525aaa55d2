-- ===== src/Alerts/Safety.antt =====
-- Where alerts are sent: api/src/services/alert.rs (lines 14 to 62), api/src/handlers/alerts.rs (lines 21 to 66).
use dbsaa_s.Prelude.{
  All, All-map, All-any, eq_iff, ◌≢◌, ℕ, ◌≡◌, refl, sym, ◌∙◌, ap, subst, Bool, true, false, Option,
  none, some, List, [], ◌∷◌, ◌++◌, String, str_eq, ==→eq, find, any,
}
use dbsaa_s.Prelude.Int.{pos}
use dbsaa_s.Text.{concat, show_i32}
use dbsaa_s.Net.{IpAddr, is_internal_ip}
use dbsaa_s.Models.{DatabaseInstance, AuthUser}
use dbsaa_s.Models.Records.{AlertRule}
use dbsaa_s.Errors.{AppError, ok, err}
use dbsaa_s.Platform.{State, Services, throw_if, run}
use dbsaa_s.Platform.Returns.{
  Returns, Returns-bind, Returns-gets, Returns-throw_if, Returns-pure, Returns-modify,
  Returns-new_uuid, Returns-now_utc, IsSameTables, IsSameTables-trans, ok-inj,
}
use dbsaa_s.Databases.Accounts.{true_of, Returns-or_throw}
use dbsaa_s.Repository.Databases.{is_database}
use dbsaa_s.Repository.Databases
use dbsaa_s.Repository.Alerts
use dbsaa_s.Alerts.{
  Url, Outside, blocked_hosts, or_443, resolved, check_addresses, validate_webhook_url,
  validate_if_given,
}
use dbsaa_s.Alerts.Handlers.{CreateAlertRuleRequest, owns, or_true, create_alert}

abbrev pub IsOutward : Option (List IpAddr) → Type 0
IsOutward none = Unit {0}
IsOutward (some addrs) = any is_internal_ip addrs ≡ false

-- A host that is none of these names.
abbrev pub IsUnblocked : String → Type 0
IsUnblocked host =
    All (λ name. host ≢ name)
      ("localhost" ∷ "127.0.0.1" ∷ "0.0.0.0" ∷ "[::1]" ∷ "metadata.google.internal"
        ∷ "169.254.169.254" ∷ [])

-- The URL has the scheme `https` and a host that is not one of the blocked names, and a look-up of its address
-- in the world `w` either fails or finds no internal one.
abbrev pub IsSafeUrl : {W : Type 0} → Outside W → W → String → Type 0
IsSafeUrl out w url =
    (parsed : Url) × (out.parse url ≡ some parsed)
    × (parsed.scheme ≡ "https")
    × ((host : String) × (parsed.host_str ≡ some host)
        × IsUnblocked host
        × IsOutward
            (out.resolve (concat (host ∷ ":" ∷ show_i32 (pos (or_443 parsed.port)) ∷ [])) w).0)

abbrev pub IsSafe : {W : Type 0} → Outside W → W → Option String → Type 0
IsSafe out w none = Unit {0}
IsSafe out w (some url) = IsSafeUrl out w url

-- Enabled as asked for, and where nothing was asked.
abbrev pub IsEnabled : Option Bool → Bool → Type 0
IsEnabled none enabled = enabled ≡ true
IsEnabled (some asked) enabled = enabled ≡ asked

-- The database, if there is one, is the user's.
abbrev pub IsOwned : {W : Type 0} → State W → AuthUser → Option ℕ → Type 0
IsOwned s user none = Unit {0}
IsOwned s user (some id) =
    (d : DatabaseInstance) × (find (is_database id) s.instances ≡ some d) × (d.user_id ≡ user.id)

abbrev pub IsRaised :
    {W : Type 0}
    → Outside W
    → AuthUser
    → CreateAlertRuleRequest
    → State W
    → State W
    → AlertRule
    → Type 0
IsRaised {W} out user req s s' rule =
    (s'.alert_rules ≡ s.alert_rules ++ (rule ∷ []))
    × (s'.instances ≡ s.instances)
    × (rule.user_id ≡ user.id)
    × (rule.database_id ≡ req.database_id)
    × (rule.event_type ≡ req.event_type)
    × (rule.webhook_url ≡ req.webhook_url)
    × (rule.email ≡ req.email)
    × IsEnabled req.enabled rule.enabled
    × IsOwned s user req.database_id
    × IsSafe out s.world req.webhook_url

IsEnabled-or_true : (asked : Option Bool) {b : Bool} → b ≡ or_true asked → IsEnabled asked b
IsEnabled-or_true none e = e
IsEnabled-or_true (some b) e = e

unblocked : (host : String) → any (λ b. str_eq b host) blocked_hosts ≡ false → IsUnblocked host
unblocked host h =
    All-map _ (λ name. host ≢ name) differs blocked_hosts
      (All-any (λ b. str_eq b host) blocked_hosts h)
  where
    differs : (name : String) → str_eq name host ≡ false → host ≢ name
    differs name n e = let bad : true ≡ false = sym ((eq_iff name host).1 (sym e)) ∙ n in cc

Returns-refusal :
    {W : Type 0} (c : Bool) (e : AppError) (s : State W) {u : Unit {0}} {s' : State W}
    → Returns (throw_if c e) s u s'
    → (c ≡ false) × (s' ≡ s)
unfolding run
Returns-refusal true e s {u} r = let bad : err e ≡ ok u = ap (λ x. x.0) r in cc
Returns-refusal false e s r = (refl, sym (ap (λ x. x.1) r))

module _ {W : Type 0} (svc : Services W) (out : Outside W) where
  Returns-check_addresses :
      (found : Option (List IpAddr)) (s : State W) {u : Unit {0}} {s' : State W}
      → Returns (check_addresses out found) s u s'
      → IsOutward found × (s' ≡ s)
  unfolding run
  Returns-check_addresses none s r = (tt, sym (ap (λ x. x.1) r))
  Returns-check_addresses (some addrs) s r = Returns-refusal (any is_internal_ip addrs) _ s r

  Returns-resolved :
      (address : String) (s : State W) {found : Option (List IpAddr)} {s' : State W}
      → Returns (resolved out address) s found s'
      → ((out.resolve address s.world).0 ≡ found) × IsSameTables s s'
  Returns-resolved address s r =
      (ok-inj (ap (λ x. x.0) r), ((out.resolve address s.world).1, sym (ap (λ x. x.1) r)))

  validate_webhook_url-IsSafeUrl :
      (url : String) (s : State W) {u : Unit {0}} {s' : State W}
      → Returns (validate_webhook_url out url) s u s'
      → IsSafeUrl out s.world url × IsSameTables s s'
  unfolding validate_webhook_url
  validate_webhook_url-IsSafeUrl url s r =
      let (parsed, e, r₁) = Returns-or_throw _ _ _ s r in
      let (https, r₂) = Returns-throw_if _ _ _ s r₁ in
      let (host, named, r₃) = Returns-or_throw _ _ _ s r₂ in
      let (free, r₄) = Returns-throw_if _ _ _ s r₃ in
      let (found, s₁, p₁, r₅) = Returns-bind _ _ s r₄ in
      let (answer, k₁) = Returns-resolved _ s p₁ in
      let (outward, same) = Returns-check_addresses found s₁ r₅ in
      (
        (
          parsed,
          e,
          (eq_iff parsed.scheme "https").0 (true_of https),
          (host, named, unblocked host free, subst IsOutward (sym answer) outward),
        ),
        subst (IsSameTables s) (sym same) k₁,
      )

  validate_if_given-IsSafe :
      (url : Option String) (s : State W) {u : Unit {0}} {s' : State W}
      → Returns (validate_if_given out url) s u s'
      → IsSafe out s.world url × IsSameTables s s'
  unfolding run
  validate_if_given-IsSafe none s r = (tt, (s.world, sym (ap (λ x. x.1) r)))
  validate_if_given-IsSafe (some url) s r = validate_webhook_url-IsSafeUrl url s r

  owns-IsOwned :
      (user : AuthUser) (database_id : Option ℕ) (s : State W) {u : Unit {0}} {s' : State W}
      → Returns (owns user database_id) s u s'
      → IsOwned s user database_id × (s' ≡ s)
  unfolding Databases.find_by_id
  owns-IsOwned user none s r = (tt, (Returns-pure tt s r).1)
  owns-IsOwned user (some id) s r =
      let (db, found, r₁) = Returns-or_throw _ _ _ s (Returns-gets _ _ s r) in
      let (mine, same) = Returns-refusal _ _ s r₁ in
      ((db, found, ==→eq db.user_id user.id (true_of mine)), same)

  Returns-create_rule :
      (user_id : ℕ) (database_id : Option ℕ) (event_type : String) (url email : Option String)
      (enabled : Bool) (s : State W) {rule : AlertRule} {s' : State W}
      → Returns (Alerts.create_rule svc user_id database_id event_type url email enabled) s rule s'
      → (s'.alert_rules ≡ s.alert_rules ++ (rule ∷ []))
        × (s'.instances ≡ s.instances)
        × (rule.user_id ≡ user_id)
        × (rule.database_id ≡ database_id)
        × (rule.event_type ≡ event_type)
        × (rule.webhook_url ≡ url)
        × (rule.email ≡ email)
        × (rule.enabled ≡ enabled)
  unfolding Alerts.create_rule
  Returns-create_rule user_id database_id event_type url email enabled s {rule} {s'} r =
      let (id, s₁, p₁, r₁) = Returns-bind _ _ s r in
      let (t, s₂, p₂, r₂) = Returns-bind _ _ s₁ r₁ in
      let (w, same) =
        IsSameTables-trans s s₁ s₂ (Returns-new_uuid svc s p₁) (Returns-now_utc svc s₁ p₂) in
      let (valid, r₃) = Returns-throw_if _ _ _ s₂ (Returns-gets _ _ s₂ (Returns-gets _ _ s₂ r₂)) in
      let (fresh, r₄) = Returns-throw_if _ _ _ s₂ r₃ in
      let (known, r₅) = Returns-throw_if _ _ _ s₂ r₄ in
      let (made, grown) = Returns-modify _ _ s₂ r₅ in
      (
        ap (λ x. x.alert_rules) grown
            ∙ (ap (λ x. s₂.alert_rules ++ (x ∷ [])) made
                ∙ ap (λ x. x.alert_rules ++ (rule ∷ [])) same),
        ap (λ x. x.instances) grown ∙ ap (λ x. x.instances) same,
        ap (λ x. x.user_id) (sym made),
        ap (λ x. x.database_id) (sym made),
        ap (λ x. x.event_type) (sym made),
        ap (λ x. x.webhook_url) (sym made),
        ap (λ x. x.email) (sym made),
        ap (λ x. x.enabled) (sym made),
      )

  -- A request for an alert that returns has added one rule, of the user, for the database and the event, with the
  -- webhook and the email that were asked for, enabled unless asked otherwise; the database it is about, if any, is
  -- the user's; and its webhook, if any, has the scheme `https` and a host that is not one of the blocked names and
  -- whose address, when the request looked it up, could not be found or was no internal one.
  pub create_alert-IsRaised :
      (user : AuthUser) (req : CreateAlertRuleRequest) (s : State W) {rule : AlertRule}
      {s' : State W}
      → Returns (create_alert svc out user req) s rule s'
      → IsRaised out user req s s' rule
  unfolding create_alert
  create_alert-IsRaised user req s {rule} {s'} r =
      let (valid, r₁) = Returns-throw_if _ _ _ s r in
      let (reachable, r₂) = Returns-throw_if _ _ _ s r₁ in
      let (_, s₁, p₁, r₃) = Returns-bind _ _ s r₂ in
      let (owned, stay) = owns-IsOwned user req.database_id s p₁ in
      let (_, s₂, p₂, r₄) = Returns-bind _ _ s₁ r₃ in
      let (safe, (w, same)) = validate_if_given-IsSafe req.webhook_url s₁ p₂ in
      let (grown, others, of_user, of_database, of_event, of_url, of_email, of_enabled) =
        Returns-create_rule user.id req.database_id req.event_type req.webhook_url req.email
          (or_true req.enabled) s₂ r₄ in
      (
        grown
            ∙ (ap (λ x. x.alert_rules ++ (rule ∷ [])) same
                ∙ ap (λ x. x.alert_rules ++ (rule ∷ [])) stay),
        others ∙ (ap (λ x. x.instances) same ∙ ap (λ x. x.instances) stay),
        of_user,
        of_database,
        of_event,
        of_url,
        of_email,
        IsEnabled-or_true req.enabled of_enabled,
        owned,
        subst (λ x. IsSafe out x.world req.webhook_url) stay safe,
      )
