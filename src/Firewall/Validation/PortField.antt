-- ===== src/Firewall/Validation/PortField.antt =====
-- internal/firewall/validation.go: the ports of a checked port field.
use fyrwall.Base.{
  String, ◌≡◌, ◌≢◌, ◌∙◌, true, false, Option, none, some, arith, eq_iff, Bool-cases, Option-cases,
  inl, inr,
}
use fyrwall.Base.Int.{pos, ◌≤ℤ◌}
use fyrwall.Base.Text.{atoi, contains, cut}
use fyrwall.Base.Text.Laws.{
  contains-cut, cut-none, replace_all-lacks, atoi-no_colon, cut-replace_all,
}
use fyrwall.Firewall.Ports.{PortRange, port_range}
use fyrwall.Firewall.Validation.{range_fault, validate_port_field}

pub record IsPortRange (r : PortRange) : Type 0 where
  pub ok : r.ok ≡ true
  pub first_port : pos 1 ≤ℤ r.lo
  pub ordered : r.lo ≤ℤ r.hi
  pub last_port : r.hi ≤ℤ pos 65535

abbrev of_parts : String × String → PortRange
of_parts (a, b) = record { lo = (atoi a).value; hi = (atoi b).value; ok = true }

module _ (p : String) where
  -- the range of a field whose cut at a separator passes the check
  record IsCut (parts : String × String) : Type 0 where
    left : (atoi parts.0).ok ≡ true
    right : (atoi parts.1).ok ≡ true
    range : IsPortRange (of_parts parts)

  range_fault-none : (parts : String × String) → range_fault p (some parts) ≡ none → IsCut parts
  range_fault-none (a, b) h = ground arith

  port_range-hyphen :
      (a b : String) → cut b'-' p ≡ some (a, b) → IsCut (a, b) → port_range p ≡ of_parts (a, b)
  unfolding port_range
  port_range-hyphen a b e c =
      rw
        (
          replace_all-lacks b':' "-" p (
              contains-cut b':' b'-' p
              ∙ (rw e (ground (arith, atoi-no_colon a, atoi-no_colon b, c.left, c.right)))),
          e,
        )
        (ground (arith, c.left, c.right))

  port_range-colon :
      (a b : String)
      → contains b'-' p ≡ false
      → cut b':' p ≡ some (a, b)
      → IsCut (a, b)
      → port_range p ≡ of_parts (a, b)
  unfolding port_range
  port_range-colon a b no_hyphen e c =
      rw (cut-replace_all p no_hyphen, e, replace_all-lacks b':' "-" b (atoi-no_colon b c.right))
        (ground (arith, c.left, c.right))

  port_range-plain :
      contains b'-' p ≡ false
      → contains b':' p ≡ false
      → (atoi p).ok ≡ true
      → port_range p ≡ record { lo = (atoi p).value; hi = (atoi p).value; ok = true }
  unfolding port_range
  port_range-plain no_hyphen no_colon h =
      rw (replace_all-lacks b':' "-" p no_colon, cut-none b'-' p no_hyphen, h)

  missing : (o : Option (String × String)) → o ≡ none → range_fault p o ≡ none → ⊥
  missing none e h = cc
  missing (some w) e h = cc

  hyphen_case :
      contains b'-' p ≡ true → range_fault p (cut b'-' p) ≡ none → IsPortRange (port_range p)
  hyphen_case c h = elim (Option-cases (cut b'-' p)) [
    | inl e ↦ absurd (missing (cut b'-' p) e h)
    | inr w ↦
        let part = range_fault-none w.0 (rw w.1 at h) in
        rw (port_range-hyphen w.0.0 w.0.1 w.1 part) part.range
  ]

  colon_case :
      contains b'-' p ≡ false → range_fault p (cut b':' p) ≡ none → IsPortRange (port_range p)
  colon_case c h = elim (Option-cases (cut b':' p)) [
    | inl e ↦ absurd (missing (cut b':' p) e h)
    | inr w ↦
        let part = range_fault-none w.0 (rw w.1 at h) in
        rw (port_range-colon w.0.0 w.0.1 c w.1 part) part.range
  ]

  -- A field that is not empty and passes the check is read as a range of ports from 1 to 65535
  -- that is not reversed.
  pub validate_port_field_sound : p ≢ "" → validate_port_field p ≡ none → IsPortRange (port_range p)
  unfolding validate_port_field
  validate_port_field_sound nonempty h = elim (Bool-cases (contains b'-' p)) [
    | inl hyphen ↦ hyphen_case hyphen (ground (arith, eq_iff p ""))
    | inr no_hyphen ↦ elim (Bool-cases (contains b':' p)) [
      | inl colon ↦ colon_case no_hyphen (ground (arith, eq_iff p ""))
      | inr no_colon ↦
          rw (port_range-plain no_hyphen no_colon (ground (arith, eq_iff p "")))
            (ground (arith, eq_iff p ""))
    ]
  ]
