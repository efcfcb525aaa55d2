-- ===== src/Provisioner/Firewall/Scripts.antt =====
-- When the script of a peering (api/src/services/provisioner.rs, lines 1040 to 1117) is run, and what
-- it is.
use Prim.Native.String.{◌++◌, len, slice}
use text.Mathlib.TextLemmas.{append_assoc, append-nil}
use dbsaa_s.Prelude.{
  subst, ◌≡◌, refl, ap, sym, ◌∙◌, Bool, true, false, not, Option, none, some, List, [], ◌∷◌, String,
  str_eq, ltb, ◌&&◌, ◌||◌,
}
use dbsaa_s.Prelude.Int.{ℤ, pos, leb_ℤ}
use dbsaa_s.Errors.{AppError, Result, ok, err}
use dbsaa_s.Platform.{State, M, Docker, Services, pure, throw_if, run, ◌>>=◌, ◌>>◌}
use dbsaa_s.Text.{codes}
use dbsaa_s.Provisioner.Host.{exec_on_host}
use dbsaa_s.Provisioner.Firewall.Commands.{lines_of, written-script_of, script_of}
use dbsaa_s.Provisioner.Firewall.{
  Rule, all_codes, get_or_tcp, table_of, rule_line, safe_char, validate_nft_value, check_port,
  check_rule, add_rules, apply_firewall_rules,
}

-- A check: it passes where `c` holds; elsewhere the caller gets a 400 and nothing has changed.
unfoldable pub Guards : {W A : Type 0} → Bool → State W → M W A → Result A × State W → Type 0
Guards true s m good = m s ≡ good
Guards false s m good = (msg : String) × (m s ≡ (err (AppError.bad_request msg), s))

module _ {W : Type 0} (s : State W) where
  Guards-throw_if :
      (c : Bool) (msg : String)
      → Guards (not c) s (throw_if c (AppError.bad_request msg)) (ok tt, s)
  unfolding run Guards
  Guards-throw_if true msg = (msg, refl)
  Guards-throw_if false msg = refl

  Guards-throw_unless :
      (c : Bool) (msg : String)
      → Guards c s (throw_if (not c) (AppError.bad_request msg)) (ok tt, s)
  unfolding run Guards
  Guards-throw_unless true msg = refl
  Guards-throw_unless false msg = (msg, refl)

  bind_cong :
      {A B : Type 0} (m : M W A) (k : A → M W B) (r : Result A × State W)
      → m s ≡ r
      → (m >>= k) s
        ≡ elim r.0 as (λ _. Result B × State W) [ ok a ↦ k a r.1 | err e ↦ (err e, r.1) ]
  unfolding ◌>>=◌
  bind_cong {B = B} m k r h =
      ap (λ x. elim x.0 as (λ _. Result B × State W) [ ok a ↦ k a x.1 | err d ↦ (err d, x.1) ]) h

  -- One check after the other.
  Guards-bind :
      {A B : Type 0} (c d : Bool) (m : M W A) (k : A → M W B) (a : A) (good : Result B × State W)
      → Guards c s m (ok a, s)
      → Guards d s (k a) good
      → Guards (c && d) s (m >>= k) good
  unfolding Guards
  Guards-bind true true m k a good h next = bind_cong m k _ h ∙ next
  Guards-bind true false m k a good h (msg, e) = (msg, bind_cong m k _ h ∙ e)
  Guards-bind false d m k a good (msg, e) next = (msg, bind_cong m k _ e)

  Guards-last :
      {A B : Type 0} (c : Bool) (m : M W A) (k : A → M W B) (a : A)
      → Guards c s m (ok a, s)
      → Guards c s (m >>= k) (k a s)
  unfolding Guards
  Guards-last true m k a h = bind_cong m k _ h
  Guards-last false m k a (msg, e) = (msg, bind_cong m k _ e)

-- What the code asks of a value that goes into the script, of a port and of a rule.
module _ {W : Type 0} (svc : Services W) where
  abbrev pub value_ok : String → Bool
  value_ok val = all_codes (safe_char svc) (codes val) && not (str_eq val "" || ltb 64 (len val))

  abbrev pub port_ok : Option ℤ → Bool
  port_ok none = true
  port_ok (some p) = leb_ℤ (pos 1) p && leb_ℤ p (pos 65535)

  abbrev pub rule_ok : Rule → Bool
  rule_ok r =
      value_ok r.src_subnet
      && (value_ok r.dst_subnet && (value_ok (get_or_tcp r.protocol) && port_ok r.port))

  abbrev pub rules_ok : List Rule → Bool
  rules_ok [] = true
  rules_ok (r ∷ rs) = rule_ok r && rules_ok rs

  validate-Guards :
      (val name : String) (s : State W)
      → Guards (value_ok val) s (validate_nft_value svc val name) (ok tt, s)
  unfolding validate_nft_value
  validate-Guards val name s =
      Guards-bind s _ _ _ _ tt _ (Guards-throw_unless s _ _) (Guards-throw_if s _ _)

  check_port-Guards :
      (p : Option ℤ) (s : State W) → Guards (port_ok p) s (check_port svc p) (ok tt, s)
  unfolding Guards pure
  check_port-Guards none s = refl
  check_port-Guards (some p) s = Guards-throw_unless s _ _

  check_rule-Guards : (r : Rule) (s : State W) → Guards (rule_ok r) s (check_rule svc r) (ok tt, s)
  unfolding check_rule
  check_rule-Guards r s = Guards-bind s _ _ _ _ tt _ (validate-Guards _ _ s) (
      Guards-bind s _ _ _ _ tt _ (validate-Guards _ _ s)
        (Guards-bind s _ _ _ _ tt _ (validate-Guards _ _ s) (check_port-Guards r.port s)))

module _ {W : Type 0} (svc : Services W) where
  add_rules-Guards :
      (table bridge : String) (rules : List Rule) (script : String) (s : State W)
      → Guards
          (rules_ok svc rules)
          s
          (add_rules svc table bridge rules script)
          (ok (script ++ lines_of table bridge rules), s)
  unfolding add_rules Guards pure
  add_rules-Guards table bridge [] script s = ap (λ x. (ok x, s)) (sym (append-nil script))
  add_rules-Guards table bridge (r ∷ rules) script s =
      Guards-bind s _ _ _ _ tt _ (check_rule-Guards svc r s) (
        subst
          (λ x.
            Guards (rules_ok svc rules) s
              (add_rules svc table bridge rules (script ++ rule_line table bridge r)) (ok x, s))
          (append_assoc script (rule_line table bridge r) (lines_of table bridge rules))
          (add_rules-Guards table bridge rules (script ++ rule_line table bridge r) s))

  -- If the peering's id, the bridge and every value of every rule pass the checks of the code, the call is
  -- one run of one script on the host, which makes a new table with one chain that accepts established
  -- connections, then accepts what each rule allows and drops what it does not, in the order of the rules,
  -- then drops the rest; otherwise the call is a 400 and neither the tables nor the world have changed.
  pub apply_firewall_rules-Guards :
      (docker : Docker) (peering_id bridge : String) (rules : List Rule) (s : State W)
      → Guards
          (value_ok svc peering_id && (value_ok svc bridge && rules_ok svc rules))
          s
          (apply_firewall_rules svc docker peering_id bridge rules)
          ((exec_on_host svc docker (script_of ("sb_peer_" ++ slice peering_id 0 8) bridge rules)
              >> pure tt)
            s)
  unfolding apply_firewall_rules
  apply_firewall_rules-Guards docker peering_id bridge rules s =
      subst
        (λ text.
          Guards (value_ok svc peering_id && (value_ok svc bridge && rules_ok svc rules)) s
            (apply_firewall_rules svc docker peering_id bridge rules)
            ((exec_on_host svc docker text >> pure tt) s))
        (written-script_of (table_of peering_id) bridge rules)
        (Guards-bind s _ _ _ _ tt _ (validate-Guards svc _ _ s) (
          Guards-bind s _ _ _ _ tt _ (validate-Guards svc _ _ s)
            (Guards-last s _ _ _ _ (add_rules-Guards _ _ rules _ s))))
