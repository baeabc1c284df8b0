-- ===== src/Config/Loads.antt =====
-- What `Load` of internal/config/config.go returns.
use mathlib.Core.Path.{subst}
use nl_punch.Prelude.{
  [], ◌∷◌, List, Bytes, nat_eq, string_eq, Option, none, some, ◌≡◌, ◌≢◌, Option-cases, inl, inr,
}
use nl_punch.Stream.{ok-injective, ok}
use nl_punch.Config.{Config, validate, load, apply_defaults, stun_or_default}
use nl_punch.Config.Accepts.{IsAccepted, validate_iff}

stun_or_default-nonempty : (ss : List Bytes) → stun_or_default ss ≢ []
stun_or_default-nonempty [] e = cc e
stun_or_default-nonempty (s ∷ ss) e = cc e

-- What `Load` returns is a configuration that `validate` accepts, with a STUN server in it.
pub load-IsAccepted :
    (expand_env : Bytes → Bytes) (unmarshal : Bytes → Option Config) (raw : Option Bytes)
    (c : Config)
    → load expand_env unmarshal raw ≡ ok c
    → IsAccepted c × (c.ice.stun ≢ [])
unfolding load apply_defaults
load-IsAccepted expand_env unmarshal none c h = cc h
load-IsAccepted expand_env unmarshal (some raw) c h =
    elim (Option-cases (unmarshal (expand_env raw))) [
      | inl bad ↦ cc (rw (load, bad) at h)
      | inr (d, parsed) ↦ elim (Option-cases (validate (apply_defaults d))) [
        | inr (e, refused) ↦ cc (rw (load, parsed, apply_defaults, refused) at h)
        | inl accepted ↦
            let same : apply_defaults d ≡ c =
              ok-injective _ _ (rw (load, parsed, apply_defaults, accepted) at h) in
            subst (λ x. IsAccepted x × (x.ice.stun ≢ [])) same
              ((validate_iff (apply_defaults d)).0 accepted, stun_or_default-nonempty d.ice.stun)
      ]
    ]
