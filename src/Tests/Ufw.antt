-- ===== src/Tests/Ufw.antt =====
-- The arguments and the listing of ufw, at concrete inputs.
use text.Mathlib.Text.{◌==◌}
use fyrwall.Base.{◌≡◌, refl, Bool, false}
use fyrwall.Firewall.Rules.{Rule}
use fyrwall.Firewall.Ufw.Arguments.{to_ufw_args, first_verb, to_ufw_args-lost_verbs}
use fyrwall.Firewall.Shell.{Shell}
use fyrwall.Tests.Hosts.{two_families, ufw_run, ufw_input}
use fyrwall.Tests.Open.{firewall_code}
use fyrwall.Tests.Data.{allow_ssh}

abbrev out_rule : Rule
out_rule = record allow_ssh { direction = "out" }

ssh_verb : first_verb (to_ufw_args allow_ssh) ≡ "allow"
unfolding to_ufw_args firewall_code
ssh_verb = refl

to_ufw_args-lost_verbs_example :
    (to_ufw_args (record out_rule { action = "log" })
      ≡ to_ufw_args (record out_rule { action = "allow" }))
    × ((out_rule.direction == "in") ≡ false
        → to_ufw_args (record out_rule { action = "reject" })
          ≡ to_ufw_args (record out_rule { action = "allow" }))
to_ufw_args-lost_verbs_example = to_ufw_args-lost_verbs out_rule

-- a host as in the tests of iptables, where ufw knows only how to show its state
abbrev shell : Shell (Bool × Bool)
shell = record two_families { run = λ bin args h. ufw_run bin h; run_input = ufw_input }
