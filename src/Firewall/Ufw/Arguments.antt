-- ===== src/Firewall/Ufw/Arguments.antt =====
-- internal/firewall/ufw/ufw.go: `toUFWArgs`.
use text.Mathlib.Text.{◌==◌}
use fyrwall.Base.{
  String, ◌≡◌, ◌≢◌, refl, Bool, true, false, not, ◌&&◌, ◌||◌, List, [], ◌∷◌, ◌++◌, arith,
  if◌then◌else◌, sym, ◌∙◌, Bool-cases, either, inl, inr,
}
use fyrwall.Base.Text.Laws.{one_or_other, ne_of_test}
use fyrwall.Firewall.Rules.{Rule}

-- the verb of a rule out of the host, or through it
abbrev pub blocking_verb : String → String
blocking_verb action = if action == "deny" || action == "drop" then "deny" else "allow"

-- the verb of a rule into the host
abbrev pub inbound_verb : String → String
inbound_verb action =
    if action == "allow" then "allow" else if action == "reject" then "reject" else "deny"

-- the `switch` over the direction
unfoldable pub verb_args : String → String → List String
verb_args direction action =
    if direction == "in"
    then inbound_verb action ∷ []
    else if direction == "out"
    then blocking_verb action ∷ "out" ∷ []
    else if direction == "forward"
    then "route" ∷ blocking_verb action ∷ []
    else []

abbrev pub port_args : String → List String
port_args p = if p == "" then [] else "port" ∷ p ∷ []

unfoldable pub source_args : String → String → List String
source_args source port =
    if not (source == "") && not (source == "any") then "from" ∷ source ∷ port_args port else []

abbrev pub interface_args : String → String → List String
interface_args way i = if i == "" then [] else way ∷ "on" ∷ i ∷ []

-- `toUFWArgs`, which makes no error
unfoldable pub to_ufw_args : Rule → List String
unfolding verb_args source_args
to_ufw_args r =
    verb_args r.direction r.action
    ++ (interface_args "in" r.interface_in
        ++ (interface_args "out" r.interface_out
            ++ ((if r.protocol == "any" then [] else "proto" ∷ r.protocol ∷ [])
                ++ (source_args r.source r.source_port
                    ++ ("to"
                        ∷ (if r.destination == "" then "any" else r.destination)
                        ∷ port_args r.destination_port)))))

-- whether the arguments let the traffic pass: the first verb among them
abbrev pub first_verb : List String → String
first_verb [] = ""
first_verb (a ∷ rest) = if a == "route" then first_verb rest else a

-- no verb that lets pass stands first
abbrev Silent : List String → Type 0
Silent args = (first_verb args == "allow") ≡ false

module _ (w : String) (xs rest : List String) (no_route : (w == "route") ≡ false)
    (no_allow : (w == "allow") ≡ false) (silent : Silent rest) where
  Silent-unless : (b : Bool) → Silent ((if b then [] else w ∷ xs) ++ rest)
  Silent-unless true = silent
  Silent-unless false = rw no_route no_allow

  Silent-if : (b : Bool) → Silent ((if b then w ∷ xs else []) ++ rest)
  Silent-if false = silent
  Silent-if true = rw no_route no_allow

abbrev matches : Rule → List String
matches r =
    interface_args "in" r.interface_in
    ++ (interface_args "out" r.interface_out
        ++ ((if r.protocol == "any" then [] else "proto" ∷ r.protocol ∷ [])
            ++ (source_args r.source r.source_port
                ++ ("to"
                    ∷ (if r.destination == "" then "any" else r.destination)
                    ∷ port_args r.destination_port))))

matches-Silent : (r : Rule) → Silent (matches r)
unfolding source_args
matches-Silent r =
    Silent-unless "in" _ _ refl refl
      (Silent-unless "out" _ _ refl refl
        (Silent-unless "proto" _ _ refl refl
          (Silent-if "from" _ _ refl refl refl (not (r.source == "") && not (r.source == "any")))
          (r.protocol == "any"))
        (r.interface_out == ""))
      (r.interface_in == "")

-- what a rule that lets pass is not
abbrev Passes : String → String → Type 0
Passes d a = (d ≡ "in" → a ≡ "allow") × ((a ≢ "deny") × (a ≢ "drop"))

not_allow : {P : Type 0} (w : String) → (w == "allow") ≡ false → w ≡ "allow" → P
not_allow w t e = absurd (ne_of_test w "allow" t e)

inbound-allow : (a : String) → inbound_verb a ≡ "allow" → Passes "in" a
inbound-allow a =
    one_or_other (λ b. inbound_verb b ≡ "allow" → Passes "in" b) a "allow"
      (λ _ h. (λ _. refl, (ne_of_test "allow" "deny" refl, ne_of_test "allow" "drop" refl)))
      (λ e h. elim (Bool-cases (a == "reject")) [
        | inl r ↦ not_allow "reject" refl (simp (e, r) at h)
        | inr r ↦ not_allow "deny" refl (simp (e, r) at h)
      ])

blocking-allow : (d a : String) → d ≢ "in" → blocking_verb a ≡ "allow" → Passes d a
blocking-allow d a ne =
    one_or_other (λ b. blocking_verb b ≡ "allow" → Passes d b) a "deny"
      (λ _ h. not_allow "deny" refl h)
      (λ e.
        one_or_other (λ b. blocking_verb b ≡ "allow" → Passes d b) a "drop"
          (λ _ h. not_allow "deny" refl h)
          (λ f h. (λ i. absurd (ne i), (ne_of_test a "deny" e, ne_of_test a "drop" f))))

-- the verb that is found first, unless it is the word "route"
first_verb-cons :
    (w : String) (rest : List String) → (w == "route") ≡ false → first_verb (w ∷ rest) ≡ w
first_verb-cons w rest h = rw h

inbound_route : (a : String) → (inbound_verb a == "route") ≡ false
inbound_route a =
    either (λ w. (w == "route") ≡ false) (a == "allow") refl
      (either (λ w. (w == "route") ≡ false) (a == "reject") refl refl)

blocking_route : (a : String) → (blocking_verb a == "route") ≡ false
blocking_route a = either (λ w. (w == "route") ≡ false) (a == "deny" || a == "drop") refl refl

verb-allow :
    (d a : String) (rest : List String)
    → Silent rest
    → first_verb (verb_args d a ++ rest) ≡ "allow"
    → Passes d a
unfolding verb_args
verb-allow d a rest s =
    let P = λ (e : String). first_verb (verb_args e a ++ rest) ≡ "allow" → Passes e a in
    one_or_other P d "in"
      (λ _ h. inbound-allow a (sym (first_verb-cons (inbound_verb a) rest (inbound_route a)) ∙ h))
      (λ i.
        one_or_other P d "out"
          (λ _ h.
            blocking-allow "out" a (ne_of_test "out" "in" refl)
              (sym (first_verb-cons (blocking_verb a) ("out" ∷ rest) (blocking_route a)) ∙ h))
          (λ o.
            one_or_other P d "forward"
              (λ _ h.
                blocking-allow "forward" a (ne_of_test "forward" "in" refl)
                  (sym (first_verb-cons (blocking_verb a) rest (blocking_route a)) ∙ h))
              (λ f h. absurd (ne_of_test (first_verb rest) "allow" s (rw (i, o, f) at h)))))

-- A rule into the host that is written with the verb allow is one that allows; a rule out of the
-- host or through it, one that does not deny or drop.
pub to_ufw_args-allow :
    (r : Rule)
    → first_verb (to_ufw_args r) ≡ "allow"
    → (r.direction ≡ "in" → r.action ≡ "allow") × ((r.action ≢ "deny") × (r.action ≢ "drop"))
unfolding to_ufw_args verb_args source_args
to_ufw_args-allow r h = verb-allow r.direction r.action (matches r) (matches-Silent r) h

-- Of a rule without a source address the source port is not written.
pub to_ufw_args-source_port :
    (r : Rule) (port : String)
    → (r.source == "" || r.source == "any") ≡ true
    → to_ufw_args (record r { source_port = port }) ≡ to_ufw_args (record r { source_port = "" })
unfolding to_ufw_args source_args
to_ufw_args-source_port r port h = ground (arith, h)

-- A rule that logs is written into the host as the rule that denies, and out of it or through it
-- as the rule that allows; and so is, out of it or through it, a rule that rejects.
pub to_ufw_args-lost_verbs :
    (r : Rule)
    → (to_ufw_args (record r { action = "log" })
        ≡ to_ufw_args (record r { action = if r.direction == "in" then "deny" else "allow" }))
      × ((r.direction == "in") ≡ false
          → to_ufw_args (record r { action = "reject" })
            ≡ to_ufw_args (record r { action = "allow" }))
unfolding to_ufw_args verb_args
to_ufw_args-lost_verbs r = elim (Bool-cases (r.direction == "in")) [
  | inl e ↦ rw e (refl, λ h. cc)
  | inr e ↦ rw e (refl, λ h. refl)
]
