-- ===== src/Provisioner/Firewall/Commands.antt =====
-- What the script of a peering asks of nftables, command by command, and its text:
-- api/src/services/provisioner.rs (lines 1066 to 1113).
use Prim.Native.String.{◌++◌}
use text.Mathlib.TextLemmas.{append_assoc, nil-append}
use dbsaa_s.Prelude.{
  ◌≡◌, refl, ap, sym, ◌∙◌, Bool, true, false, Option, none, some, List, [], ◌∷◌, String, str_eq,
  map, if◌then◌else◌, ◌++◌ as append,
}
use dbsaa_s.Prelude.Int.{ℤ}
use dbsaa_s.Text.{show_i32}
use dbsaa_s.Provisioner.Firewall.{Rule, rule_head, rule_line, preamble}

-- The packets that a rule is about.
pub data Packets : Type 0 where
  established everything : Packets
  between : (src dst : String) → Packets
  between_at_port : (src dst protocol : String) → ℤ → Packets

pub data Verdict : Type 0 where
  accept drop : Verdict

pub data Command : Type 0 where
  delete_table add_table add_chain : Command
  add_rule : Packets → Verdict → Command

-- A rule allows what it is about, or drops it.
abbrev pub verdict_of : String → Verdict
verdict_of action = if str_eq action "allow" then Verdict.accept else Verdict.drop

abbrev pub packets_of : (src dst : String) → Option ℤ → Option String → Packets
packets_of src dst none protocol = Packets.between src dst
packets_of src dst (some port) none = Packets.between_at_port src dst "tcp" port
packets_of src dst (some port) (some protocol) = Packets.between_at_port src dst protocol port

abbrev pub command_of : Rule → Command
command_of r =
    Command.add_rule (packets_of r.src_subnet r.dst_subnet r.port r.protocol) (verdict_of r.action)

-- A new table with one chain: established connections are accepted, the rules follow in their order,
-- and the rest is dropped.
abbrev pub commands_of : List Rule → List Command
commands_of rules =
    Command.delete_table
    ∷ Command.add_table
    ∷ Command.add_chain
    ∷ Command.add_rule Packets.established Verdict.accept
    ∷ append (map command_of rules) (Command.add_rule Packets.everything Verdict.drop ∷ [])

-- The text of a command on the bridge, before the text that follows it.
module _ (table bridge : String) where
  abbrev spell_verdict : Verdict → String → String
  spell_verdict Verdict.accept rest = "accept; " ++ rest
  spell_verdict Verdict.drop rest = "drop; " ++ rest

  abbrev spell_packets : Packets → String → String
  spell_packets Packets.established rest = "ct state established,related " ++ rest
  spell_packets Packets.everything rest = rest
  spell_packets (Packets.between src dst) rest =
      "ip saddr " ++ src ++ " ip daddr " ++ dst ++ " " ++ rest
  spell_packets (Packets.between_at_port src dst protocol port) rest =
      "ip saddr "
      ++ src
      ++ " ip daddr "
      ++ dst
      ++ " "
      ++ protocol
      ++ " dport "
      ++ show_i32 port
      ++ " "
      ++ rest

  abbrev spell : Command → String → String
  spell Command.delete_table rest = "nft delete table inet " ++ table ++ " 2>/dev/null; " ++ rest
  spell Command.add_table rest = "nft add table inet " ++ table ++ "; " ++ rest
  spell Command.add_chain rest =
      "nft add chain inet " ++ table
      ++ " forward { type filter hook forward priority -1\\; policy accept\\; }; " ++ rest
  spell (Command.add_rule packets verdict) rest =
      "nft add rule inet "
      ++ table
      ++ " forward iifname "
      ++ bridge
      ++ " oifname "
      ++ bridge
      ++ " "
      ++ spell_packets packets (spell_verdict verdict rest)

  abbrev spell_all : List Command → String → String
  spell_all [] rest = rest
  spell_all (c ∷ cs) rest = spell c (spell_all cs rest)

-- The text of the whole script.
abbrev pub script_of : String → String → List Rule → String
script_of table bridge rules = spell_all table bridge (commands_of rules) "echo OK"

module _ (table bridge : String) where
  spell_all-append :
      (cs ds : List Command) (rest : String)
      → spell_all table bridge (append cs ds) rest
        ≡ spell_all table bridge cs (spell_all table bridge ds rest)
  spell_all-append [] ds rest = refl
  spell_all-append (c ∷ cs) ds rest = ap (spell table bridge c) (spell_all-append cs ds rest)

  rule_head-append :
      (rest : String)
      → rule_head table bridge ++ rest
        ≡ "nft add rule inet " ++ table ++ " forward iifname " ++ bridge ++ " oifname " ++ bridge
          ++ " " ++ rest
  rule_head-append rest = simp append_assoc

  word_of-spell :
      (allowed : Bool) (rest : String)
      → (if allowed then "accept; " else "drop; ") ++ rest
        ≡ spell_verdict table bridge (if allowed then Verdict.accept else Verdict.drop) rest
  word_of-spell true rest = refl
  word_of-spell false rest = refl

  rule_line-spell :
      (r : Rule) (rest : String)
      → rule_line table bridge r ++ rest ≡ spell table bridge (command_of r) rest
  rule_line-spell r rest = go r.port r.protocol
    where
      go :
          (port : Option ℤ) (protocol : Option String)
          → rule_line table bridge (record r { port = port; protocol = protocol }) ++ rest
            ≡ spell table bridge (command_of (record r { port = port; protocol = protocol })) rest
      go none protocol =
          simp (append_assoc, nil-append, word_of-spell (str_eq r.action "allow")) refl
      go (some port) none = simp (append_assoc, word_of-spell (str_eq r.action "allow")) refl
      go (some port) (some p) = simp (append_assoc, word_of-spell (str_eq r.action "allow")) refl

  preamble-spell :
      (rest : String)
      → preamble table bridge ++ rest
        ≡ spell_all table bridge
            (Command.delete_table
              ∷ Command.add_table
              ∷ Command.add_chain
              ∷ Command.add_rule Packets.established Verdict.accept
              ∷ [])
            rest
  preamble-spell rest =
      simp
        (
          append_assoc,
          append_assoc "; " "nft add chain inet ",
          append_assoc "ct state established,related " "accept; ",
        )
        refl

  abbrev pub lines_of : List Rule → String
  lines_of [] = ""
  lines_of (r ∷ rs) = rule_line table bridge r ++ lines_of rs

  lines_of-spell :
      (rules : List Rule) (rest : String)
      → lines_of rules ++ rest ≡ spell_all table bridge (map command_of rules) rest
  lines_of-spell [] rest = nil-append rest
  lines_of-spell (r ∷ rules) rest =
      append_assoc (rule_line table bridge r) (lines_of rules) rest
      ∙ (rule_line-spell r _ ∙ ap (spell table bridge (command_of r)) (lines_of-spell rules rest))

  -- What the code writes is the text of the commands.
  pub written-script_of :
      (rules : List Rule)
      → (preamble table bridge ++ lines_of rules) ++ rule_head table bridge ++ "drop; " ++ "echo OK"
        ≡ script_of table bridge rules
  written-script_of rules =
      append_assoc (preamble table bridge) (lines_of rules) _
      ∙ (preamble-spell _
          ∙ ap
              (spell_all table bridge (
                Command.delete_table
                ∷ Command.add_table
                ∷ Command.add_chain
                ∷ Command.add_rule Packets.established Verdict.accept
                ∷ []))
              (lines_of-spell rules _
                ∙ (ap (spell_all table bridge (map command_of rules)) (rule_head-append _)
                    ∙ sym (
                        spell_all-append (map command_of rules)
                          (Command.add_rule Packets.everything Verdict.drop ∷ []) "echo OK"))))
