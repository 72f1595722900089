-- ===== src/Logging/Sanitize.antt =====
-- internal/logging/logger.go: the redaction of sensitive values. A value is what a decoded JSON
-- text or a configuration holds: a map with string keys, a sequence, or anything else, of which
-- nothing is looked at.
use fyrwall.Base.{
  String, ◌≡◌, refl, ap, Bool, true, false, List, [], ◌∷◌, any, map, if◌then◌else◌, Bool-cases, inl,
  inr,
}
use fyrwall.Base.Text.Fold.{codes, lower_code, contains_codes}

-- a scalar is any other value, told apart by a text
mutual
  -- a map's entries, a slice's elements, and a value
  pub data AnyMap : Type 0 where
    empty_map : AnyMap
    entry : String → AnyValue → AnyMap → AnyMap

  pub data AnySlice : Type 0 where
    empty_slice : AnySlice
    element : AnyValue → AnySlice → AnySlice

  pub data AnyValue : Type 0 where
    scalar : String → AnyValue
    mapping : AnyMap → AnyValue
    slice : AnySlice → AnyValue

abbrev pub redacted : String
redacted = "[REDACTED]"

abbrev pub sensitive_keys : List String
sensitive_keys =
    "password" ∷ "passwd" ∷ "secret" ∷ "token" ∷ "api_key" ∷ "apikey" ∷ "private_key" ∷ "session"
    ∷ "cookie" ∷ "authorization" ∷ "dsn" ∷ "credential" ∷ "ssh_key" ∷ "passphrase" ∷ "cert_key" ∷ []

-- whether the key in lower case contains one of the sensitive ones
unfoldable pub is_sensitive : String → Bool
is_sensitive key = any (λ s. contains_codes (map lower_code (codes key)) (codes s)) sensitive_keys

unfoldable mutual
  -- `sanitizeValue`
  pub sanitize_value : String → AnyValue → AnyValue
  sanitize_value key (scalar s) = if is_sensitive key then scalar redacted else scalar s
  sanitize_value key (slice xs) =
      let inner = sanitize_items key xs in if is_sensitive key then scalar redacted else slice inner
  sanitize_value key (mapping fs) =
      let inner = sanitize_map fs in if is_sensitive key then scalar redacted else mapping inner

  pub sanitize_items : String → AnySlice → AnySlice
  sanitize_items key empty_slice = empty_slice
  sanitize_items key (element x xs) = element (sanitize_value key x) (sanitize_items key xs)

  -- `SanitizeMap`
  pub sanitize_map : AnyMap → AnyMap
  sanitize_map empty_map = empty_map
  sanitize_map (entry k v fs) = entry k (sanitize_value k v) (sanitize_map fs)

abbrev mutual
  -- under a sensitive key nothing stands but the mark, at any depth
  pub IsClean : String → AnyValue → Type 0
  IsClean key (scalar s) = is_sensitive key ≡ true → s ≡ redacted
  IsClean key (slice xs) = (is_sensitive key ≡ false) × AreClean key xs
  IsClean key (mapping fs) = (is_sensitive key ≡ false) × IsCleanMap fs

  pub AreClean : String → AnySlice → Type 0
  AreClean key empty_slice = Unit
  AreClean key (element x xs) = IsClean key x × AreClean key xs

  pub IsCleanMap : AnyMap → Type 0
  IsCleanMap empty_map = Unit
  IsCleanMap (entry k v fs) = IsClean k v × IsCleanMap fs

mutual
  unfolding sanitize_value sanitize_items sanitize_map

  value-IsClean : (key : String) (v : AnyValue) → IsClean key (sanitize_value key v)
  value-IsClean key (scalar s) = elim (Bool-cases (is_sensitive key)) [
    | inl t ↦ rw t (λ _. refl)
    | inr t ↦ rw t (λ h. absurd (cc (h, t)))
  ]
  value-IsClean key (slice xs) = elim (Bool-cases (is_sensitive key)) [
    | inl t ↦ rw t (λ _. refl)
    | inr t ↦ rw t (t, items-AreClean key xs)
  ]
  value-IsClean key (mapping fs) = elim (Bool-cases (is_sensitive key)) [
    | inl t ↦ rw t (λ _. refl)
    | inr t ↦ rw t (t, map-IsCleanMap fs)
  ]

  items-AreClean : (key : String) (xs : AnySlice) → AreClean key (sanitize_items key xs)
  items-AreClean key empty_slice = tt
  items-AreClean key (element x xs) = (value-IsClean key x, items-AreClean key xs)

  map-IsCleanMap : (fs : AnyMap) → IsCleanMap (sanitize_map fs)
  map-IsCleanMap empty_map = tt
  map-IsCleanMap (entry k v fs) = (value-IsClean k v, map-IsCleanMap fs)

mutual
  unfolding sanitize_value sanitize_items sanitize_map

  value_kept : (key : String) (v : AnyValue) → IsClean key v → sanitize_value key v ≡ v
  value_kept key (scalar s) h = elim (Bool-cases (is_sensitive key)) [
    | inl t ↦ rw (t, h t) refl
    | inr t ↦ rw t refl
  ]
  value_kept key (slice xs) (t, h) = rw t (ap slice (items_kept key xs h))
  value_kept key (mapping fs) (t, h) = rw t (ap mapping (map_kept fs h))

  items_kept : (key : String) (xs : AnySlice) → AreClean key xs → sanitize_items key xs ≡ xs
  items_kept key empty_slice _ = refl
  items_kept key (element x xs) (h, hs) = cc (value_kept key x h, items_kept key xs hs)

  map_kept : (fs : AnyMap) → IsCleanMap fs → sanitize_map fs ≡ fs
  map_kept empty_map _ = refl
  map_kept (entry k v fs) (h, hs) = cc (value_kept k v h, map_kept fs hs)

-- In a map that was redacted nothing stands under a sensitive key but the mark, at any depth; and
-- a map of which this holds already is left as it is.
pub sanitize_map-IsCleanMap :
    (fs : AnyMap)
    → IsCleanMap (sanitize_map fs)
      × (IsCleanMap fs → sanitize_map fs ≡ fs)
      × (sanitize_map (sanitize_map fs) ≡ sanitize_map fs)
sanitize_map-IsCleanMap fs =
    (map-IsCleanMap fs, map_kept fs, map_kept (sanitize_map fs) (map-IsCleanMap fs))
