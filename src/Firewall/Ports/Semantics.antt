-- ===== src/Firewall/Ports/Semantics.antt =====
-- What a port field means: the set of ports that it matches.
use fyrwall.Base.{
  suc, str_eq, String, ◌≡◌, ◌≢◌, true, false, ◌⊎◌, ◌↔◌, arith, eq_iff, if◌then◌else◌,
}
use fyrwall.Base.Int.{ℤ, pos, pos_part, ◌≤ℤ◌, lebℤ}
use fyrwall.Firewall.Ports.{port_range, normalize_empty, port_subset, port_intersects}

-- A port field matches a port: it is empty, or it is well formed and the port lies in its range.
abbrev pub MatchesPort : String → ℤ → Type 0
MatchesPort s n =
    (normalize_empty s ≡ "")
    ⊎ (((port_range (normalize_empty s)).ok ≡ true)
        × ((port_range (normalize_empty s)).lo ≤ℤ n)
        × (n ≤ℤ (port_range (normalize_empty s)).hi))

-- If `port_subset` answers true, every port that the first field matches is matched by the
-- second.
pub port_subset_sound :
    (sub super : String) (n : ℤ)
    → port_subset sub super ≡ true
    → MatchesPort sub n
    → MatchesPort super n
unfolding port_subset
port_subset_sound sub super n h m = ground (
  arith,
  eq_iff (normalize_empty super) "",
  eq_iff (normalize_empty sub) "",
  eq_iff (normalize_empty sub) (normalize_empty super),
)

-- A field that states a set of ports: it is empty, or a well-formed range that is not reversed.
pub record IsPortField (s : String) : Type 0 where
  pub well_formed :
      (normalize_empty s ≡ "")
      ⊎ (((port_range (normalize_empty s)).ok ≡ true)
          × ((port_range (normalize_empty s)).lo ≤ℤ (port_range (normalize_empty s)).hi))

abbrev above : ℤ → ℤ
above n = pos (suc (pos_part n))

-- the ends of a range, and a port above it, decide containment
module _ (sub super : String) (fsub : IsPortField sub) (fsuper : IsPortField super) where
  port_subset_complete :
      ((n : ℤ) → MatchesPort sub n → MatchesPort super n) → port_subset sub super ≡ true
  unfolding port_subset
  port_subset_complete all = ground (
    arith,
    fsub.well_formed,
    fsuper.well_formed,
    all (port_range (normalize_empty sub)).lo,
    all (port_range (normalize_empty sub)).hi,
    all (above (port_range (normalize_empty super)).hi),
    eq_iff (normalize_empty super) "",
    eq_iff (normalize_empty sub) "",
    eq_iff (normalize_empty sub) (normalize_empty super),
  )

-- Between fields that state sets of ports, `port_subset` answers true exactly when the first set
-- is contained in the second.
pub port_subset_iff :
    (sub super : String)
    → IsPortField sub
    → IsPortField super
    → (port_subset sub super ≡ true) ↔ ((n : ℤ) → MatchesPort sub n → MatchesPort super n)
port_subset_iff sub super fsub fsuper =
    (λ h n. port_subset_sound sub super n h, port_subset_complete sub super fsub fsuper)

abbrev later : ℤ → ℤ → ℤ
later a b = if lebℤ a b then b else a

-- a port that both fields match, if there is one
abbrev common : String → String → ℤ
common p q =
    if str_eq (normalize_empty p) ""
    then (port_range (normalize_empty q)).lo
    else if str_eq (normalize_empty q) ""
    then (port_range (normalize_empty p)).lo
    else later (port_range (normalize_empty p)).lo (port_range (normalize_empty q)).lo

-- Of two fields that state sets of ports, `port_intersects` answers true exactly when some port
-- is matched by both.
pub port_intersects_iff :
    (p q : String)
    → IsPortField p
    → IsPortField q
    → (port_intersects p q ≡ true) ↔ ((n : ℤ) × MatchesPort p n × MatchesPort q n)
unfolding port_intersects
port_intersects_iff p q fp fq = (
  λ h. (
    common p q,
    ground (
      arith,
      fp.well_formed,
      fq.well_formed,
      eq_iff (normalize_empty p) "",
      eq_iff (normalize_empty q) "",
    ),
    ground (
      arith,
      fp.well_formed,
      fq.well_formed,
      eq_iff (normalize_empty p) "",
      eq_iff (normalize_empty q) "",
    ),
  ),
  λ w.
      let (n, hp, hq) = w in
      ground (arith, eq_iff (normalize_empty p) "", eq_iff (normalize_empty q) ""),
)

-- A text that holds neither '-' nor ':' and is no number, such as the port list "22,80".
pub record IsPortList (s : String) : Type 0 where
  pub some_text : normalize_empty s ≢ ""
  pub unread : port_range (normalize_empty s) ≡ record { lo = pos 0; hi = pos 0; ok = false }

-- A port list never intersects a field whose ports begin at 1 or above, whatever it lists.
pub port_intersects-port_list :
    (p q : String)
    → normalize_empty p ≢ ""
    → pos 1 ≤ℤ (port_range (normalize_empty p)).lo
    → IsPortList q
    → port_intersects p q ≡ false
unfolding port_intersects
port_intersects-port_list p q hp positive l =
    rw l.unread
      (ground (arith, eq_iff (normalize_empty p) "", eq_iff (normalize_empty q) "", l.some_text))
