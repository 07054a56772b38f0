-- ===== src/Auth/Guard.antt =====
-- Who gets through the middleware of src/auth.rs, and where the gateway listens.
use aegis_runtime.Auth.Ascii.{IsAscii, as_bytes-AreBytes, as_bytes-inj, trim-IsAscii, strip-IsAscii}
use aegis_runtime.Auth.Bytes.{as_bytes}
use aegis_runtime.Auth.Bytes.Equality.{constant_time_eq_iff}
use aegis_runtime.Auth.Operator.{
  OperatorAuth, Request, next, service_unavailable, is_graphic, min_token_len, with_token,
  strip_prefix, trimmed, bearer, presented_token, is_configured, verify, verify_token, is_public,
  require_operator, IpAddr, is_loopback, resolve_bind_addr,
}
use aegis_runtime.Prelude.{
  ℕ, ◌≤◌, String, ◌≡◌, refl, sym, ap, ◌∙◌, ◌↔◌, ◌⊎◌, inl, inr, Option, none, some, Bool, true,
  false, not, ◌||◌, ok, ltb, byte_len, any_char, trim, arith, Bool-cases, Option-cases,
  if◌then◌else◌,
}

abbrev pub AllAscii : Option String → Type 0
AllAscii none = Unit
AllAscii (some s) = IsAscii s

-- What `HeaderValue::to_str` promises of the headers.
pub record IsVisible (req : Request) : Type 0 where
  pub authorization : AllAscii req.authorization
  pub operator_token : AllAscii req.operator_token

presented-IsAscii : (req : Request) → IsVisible req → AllAscii (presented_token req)
unfolding presented_token
presented-IsAscii req v =
    chosen (bearer req.authorization) (given req.authorization v.authorization)
  where
    alternate : (o : Option String) → AllAscii o → AllAscii (trimmed o)
    alternate none h = tt
    alternate (some s) h = trim-IsAscii s h

    given : (o : Option String) → AllAscii o → AllAscii (bearer o)
    given none h = tt
    given (some s) h = stripped (strip_prefix "Bearer " s) refl
      where
        stripped : (b : Option String) → strip_prefix "Bearer " s ≡ b → AllAscii b
        stripped none e = tt
        stripped (some t) e = strip-IsAscii "Bearer " s t h e

    chosen :
        (o : Option String)
        → AllAscii o
        → AllAscii (elim o [ some rest ↦ some (trim rest) | none ↦ trimmed req.operator_token ])
    chosen none h = alternate req.operator_token v.operator_token
    chosen (some rest) h = trim-IsAscii rest h

graphic-IsAscii : (s : String) → any_char (λ c. not (is_graphic c)) s ≡ false → IsAscii s
graphic-IsAscii String.[] h = refl
graphic-IsAscii (String.◌∷◌ c s) h = ground (arith, graphic-IsAscii s (ground (arith, h)), h)

-- A token that is accepted: trimmed, long enough, and visible ASCII throughout.
pub record IsToken (token : String) (auth : OperatorAuth) : Type 0 where
  pub held : auth.token ≡ some (trim token)
  pub long : min_token_len ≤ byte_len (trim token)
  pub ascii : IsAscii (trim token)

with_token-IsToken :
    (token : String) (auth : OperatorAuth) → with_token token ≡ ok auth → IsToken token auth
unfolding with_token
with_token-IsToken token auth h = elim (Bool-cases (ltb (byte_len (trim token)) min_token_len)) [
  | inl short ↦ absurd (cc (rw short at h))
  | inr long ↦ elim (Bool-cases (any_char (λ c. not (is_graphic c)) (trim token))) [
    | inl bad ↦ absurd (cc (rw (long, bad) at h))
    | inr good ↦
        let made : record { token = some (trim token) } ≡ auth = ground (arith, long, good) in
        record {
          held = ap (λ (a : OperatorAuth). a.token) (sym made);
          long = ground (arith, long);
          ascii = graphic-IsAscii (trim token) good;
        }
  ]
]

verify_iff :
    (t : String) (o : Option String)
    → IsAscii t
    → AllAscii o
    → (verify_token (some t) o ≡ true) ↔ (o ≡ some t)
verify_iff t none ht ho = (λ h. absurd (cc), λ h. absurd (cc))
verify_iff t (some g) ht ho =
    let same =
      constant_time_eq_iff (as_bytes t) (as_bytes g) (as_bytes-AreBytes t ht)
        (as_bytes-AreBytes g ho) in
    (
      λ h. ap some (sym (as_bytes-inj t g ht ho (same.0 h))),
      λ e. let at : g ≡ t = ground arith in same.1 (ap as_bytes (sym at)),
    )

-- If the operator's token was accepted and the headers are visible ASCII, a request is handed on exactly
-- when it reads one of the public paths or presents that token, trimmed, in full.
pub require_operator_iff :
    (token : String) (auth : OperatorAuth) (req : Request)
    → with_token token ≡ ok auth
    → IsVisible req
    → (require_operator auth req ≡ next)
      ↔ ((is_public req.method req.path ≡ true) ⊎ (presented_token req ≡ some (trim token)))
unfolding require_operator
require_operator_iff token auth req made visible =
    let k = with_token-IsToken token auth made in
    let same =
      verify_iff (trim token) (presented_token req) k.ascii (presented-IsAscii req visible) in
    let configured : is_configured auth ≡ true =
      ap (λ o. elim o [ some t ↦ true | none ↦ false ]) k.held in
    let checks : verify auth (presented_token req)
        ≡ verify_token (some (trim token)) (presented_token req) =
      ap (λ t. verify_token t (presented_token req)) k.held in
    (
      λ h. elim (Bool-cases (is_public req.method req.path)) [
        | inl open_path ↦ inl open_path
        | inr closed ↦ elim (Bool-cases (verify auth (presented_token req))) [
          | inl passes ↦ inr (same.0 (sym checks ∙ passes))
          | inr fails ↦ absurd (cc (rw (closed, configured, fails) at h))
        ]
      ],
      handed,
    )
  where
    handed :
        (is_public req.method req.path ≡ true) ⊎ (presented_token req ≡ some (trim token))
        → require_operator auth req ≡ next
    handed (inl open_path) = rw open_path refl
    handed (inr presents) =
        let k = with_token-IsToken token auth made in
        let same =
          verify_iff (trim token) (presented_token req) k.ascii (presented-IsAscii req visible) in
        let configured : is_configured auth ≡ true =
          ap (λ o. elim o [ some t ↦ true | none ↦ false ]) k.held in
        let passes : verify auth (presented_token req) ≡ true =
          ap (λ t. verify_token t (presented_token req)) k.held ∙ same.1 presents in
        ground (arith, configured, passes)

-- Without a token only a read of a public path is handed on, and everything else is refused as
-- unavailable, whatever token it presents.
require_operator_disabled :
    (auth : OperatorAuth) (req : Request)
    → auth.token ≡ none
    → require_operator auth req
      ≡ (if is_public req.method req.path then next else service_unavailable)
unfolding require_operator
require_operator_disabled auth req h =
    let unset : is_configured auth ≡ false = ap (λ o. elim o [ some t ↦ true | none ↦ false ]) h in
    rw unset refl

-- An address to listen on is the one that the host's text names; it is a loopback address unless
-- the operator opted in.
resolve_bind_addr_iff :
    (parse : String → Option IpAddr) (host : String) (port : ℕ) (opted : Bool) (ip : IpAddr)
    → (resolve_bind_addr parse host port opted ≡ ok (ip, port))
      ↔ ((parse (trim host) ≡ some ip) × ((is_loopback ip || opted) ≡ true))
unfolding resolve_bind_addr
resolve_bind_addr_iff parse host port opted ip = (
  λ h. elim (Option-cases (parse (trim host))) [
    | inl unread ↦ absurd (ground (arith, unread))
    | inr (a, read) ↦ elim (Bool-cases (is_loopback a || opted)) [
      | inl fine ↦
          let same : a ≡ ip = ground (arith, read, fine) in (read ∙ ap some same, rw (← same) fine)
      | inr far ↦ absurd (ground (arith, read, far))
    ]
  ],
  λ (read, fine). ground (arith, read, fine),
)
