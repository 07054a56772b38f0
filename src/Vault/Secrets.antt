-- ===== src/Vault/Secrets.antt =====
-- Where a secret of src/vault.rs comes from, and where it does not go.
use aegis_runtime.Redaction.Gone.{IsWord, replaced, kept_out}
use aegis_runtime.Vault.{
  Host, Cache, dev_secret_fallback_enabled, from_vault, not_returned, found, from_env, asked,
  uncached, resolve_secret, redact_values, redact_sensitive_text,
}
use aegis_runtime.Prelude.{
  String, ◌≡◌, ◌⊎◌, refl, List, [], ◌∷◌, map, Option, none, some, true, false, Result, ok, err, ◌≤◌,
  leb, lookup, lookup-insert, is_empty, trim, byte_len, replace, text_contains, str_eq, eq_refl, In,
  here, there, Bool-cases, inl, inr, arith,
}

-- Where a secret came from.
pub data Source (host : Host) (cache : Cache) (key val : String) : Type 0 where
  cached : lookup key cache ≡ some val → Source host cache key val
  vault :
      lookup key cache ≡ none
      → from_vault (host.atlas_vault key) ≡ some val
      → Source host cache key val
  environment :
      lookup key cache ≡ none
      → from_vault (host.atlas_vault key) ≡ none
      → dev_secret_fallback_enabled host ≡ true
      → host.env_var key ≡ some val
      → Source host cache key val

-- Why a secret is refused: the key is blank, or none of the sources has it.
pub data Refusal (host : Host) (cache : Cache) (key : String) : String → Type 0 where
  blank : is_empty (trim key) ≡ true → Refusal host cache key "Secret key cannot be empty"
  nowhere :
      is_empty (trim key) ≡ false
      → lookup key cache ≡ none
      → from_vault (host.atlas_vault key) ≡ none
      → (host.env_var key ≡ none) ⊎ (dev_secret_fallback_enabled host ≡ false)
      → Refusal host cache key (not_returned key)

-- What a call answers, with the cache that it leaves.
abbrev pub IsResolved : Host → Cache → String → Cache × Result String String → Type 0
IsResolved host cache key (after, ok val) =
    (is_empty (trim key) ≡ false)
    × Source host cache key val
    × (lookup key after ≡ some val)
    × ((other : String) → str_eq key other ≡ false → lookup other after ≡ lookup other cache)
IsResolved host cache key (after, err e) = (after ≡ cache) × Refusal host cache key e

module _ (host : Host) (cache : Cache) (key : String) where
  inserted :
      (val : String)
      → is_empty (trim key) ≡ false
      → Source host cache key val
      → IsResolved host cache key (found cache key val)
  inserted val named source = (
    named,
    source,
    ground (arith, lookup-insert key key val cache, eq_refl key),
    λ other apart. ground (arith, lookup-insert key other val cache, apart),
  )

  from_env-IsResolved :
      (o : Option String)
      → host.env_var key ≡ o
      → is_empty (trim key) ≡ false
      → lookup key cache ≡ none
      → from_vault (host.atlas_vault key) ≡ none
      → IsResolved host cache key (from_env host cache key o)
  from_env-IsResolved none at named fresh silent = (refl, nowhere named fresh silent (inl at))
  from_env-IsResolved (some val) at named fresh silent =
      elim (Bool-cases (dev_secret_fallback_enabled host)) [
        | inl dev ↦ rw dev (inserted val named (environment fresh silent dev at))
        | inr production ↦ rw production (refl, nowhere named fresh silent (inr production))
      ]

  asked-IsResolved :
      (o : Option String)
      → from_vault (host.atlas_vault key) ≡ o
      → is_empty (trim key) ≡ false
      → lookup key cache ≡ none
      → IsResolved host cache key (asked host cache key o)
  asked-IsResolved none at named fresh = from_env-IsResolved (host.env_var key) refl named fresh at
  asked-IsResolved (some val) at named fresh = inserted val named (vault fresh at)

  uncached-IsResolved :
      (o : Option String)
      → lookup key cache ≡ o
      → is_empty (trim key) ≡ false
      → IsResolved host cache key (uncached host cache key o)
  uncached-IsResolved none at named = asked-IsResolved _ refl named at
  uncached-IsResolved (some val) at named = (named, cached at, at, λ other apart. refl)

  -- A key resolves to what is cached, else to what atlas-vault prints, else, and only where the fallback
  -- is turned on, to the environment; it is cached then, and no other key changes. It is refused only if
  -- it is blank, or if none of the three has it, with the error that says so, and the cache stays as it is.
  pub resolve_secret-IsResolved : IsResolved host cache key (resolve_secret host cache key)
  unfolding resolve_secret
  resolve_secret-IsResolved = elim (Bool-cases (is_empty (trim key))) [
    | inl empty ↦ rw empty (refl, blank empty)
    | inr named ↦ rw named (uncached-IsResolved _ refl named)
  ]

module _ (v : String) (w : IsWord v)
    (apart : text_contains "REDACTED_BY_ATLAS_VAULT" v ≡ false) where
  values_kept_out :
      (vs : List String) (s : String)
      → text_contains s v ≡ false
      → text_contains (redact_values vs s) v ≡ false
  unfolding redact_values
  values_kept_out [] s out = out
  values_kept_out (u ∷ vs) s out = elim (Bool-cases (leb 4 (byte_len u))) [
    | inl long ↦
        rw long (values_kept_out vs _ (kept_out "REDACTED_BY_ATLAS_VAULT" v w apart u s out))
    | inr short ↦ rw short (values_kept_out vs s out)
  ]

  values-gone :
      (vs : List String) (s : String)
      → 4 ≤ byte_len v
      → In v vs
      → text_contains (redact_values vs s) v ≡ false
  unfolding redact_values replace
  values-gone [] s long m = elim m [ ]
  values-gone (u ∷ vs) s long (there m) = values-gone vs _ long m
  values-gone (u ∷ vs) s long (here e) =
      let at : leb 4 (byte_len u) ≡ true = rw (← e) (ground arith) in
      rw at (values_kept_out vs _ (rw (← e) (replaced "REDACTED_BY_ATLAS_VAULT" v w apart 0 s)))

-- A cached secret of four bytes or more is not left in the text, in whatever order the cache is walked,
-- if it has no square bracket and is no part of the words of the marker.
pub redact_sensitive_text-gone :
    (cache : Cache) (text v : String)
    → In v (map (λ e. e.1) cache)
    → 4 ≤ byte_len v
    → IsWord v
    → text_contains "REDACTED_BY_ATLAS_VAULT" v ≡ false
    → text_contains (redact_sensitive_text cache text) v ≡ false
unfolding redact_sensitive_text
redact_sensitive_text-gone cache text v m long w apart =
    values-gone v w apart (map (λ e. e.1) cache) text long m
