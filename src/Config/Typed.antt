-- ===== src/Config/Typed.antt =====
-- Settings keep to the ranges of their types while the variables are laid over them.
use iot_ftp_upload_gateway.Base.{
  ◌≤◌, ◌≡◌, refl, subst, List, [], ◌∷◌, Option, none, some, All, Text, parse_uint-le, u16_max,
  >>=-eq-some,
}
use iot_ftp_upload_gateway.Config.Ranges.{HasPorts, parse_backends-HasPorts}
use iot_ftp_upload_gateway.Config.Settings.{Settings}
use iot_ftp_upload_gateway.Config.Load.{
  Variable, unset, set_to, not_unicode, Host, put_parsed, put_variable, override, overrides,
  apply_each,
}

-- The ranges that the types of the source give: 16-bit ports, and the checks made on reading.
abbrev pub IsTyped : Settings → Type 0
IsTyped s =
    (s.passive.port_range.start ≤ u16_max)
    × (s.passive.port_range.end ≤ u16_max)
    × All HasPorts s.backends

abbrev Keeps : (Settings → Option Settings) → Type 0
Keeps o = (s s' : Settings) → IsTyped s → o s ≡ some s' → IsTyped s'

pub some_inj : (s s' : Settings) → Option.some s ≡ some s' → s ≡ s'
some_inj s s' e = cc

module _ {A : Type 0} (parse : Text → Option A) (put : A → Settings → Settings) where
  abbrev Puts : Type 0
  Puts = (v : Text) (a : A) (s : Settings) → parse v ≡ some a → IsTyped s → IsTyped (put a s)

  put_parsed-IsTyped :
      Puts
      → (v : Text) (r : Option A) (s s' : Settings) → parse v ≡ r
      → IsTyped s
      → put_parsed put r s ≡ some s'
      → IsTyped s'
  put_parsed-IsTyped ok v none s s' p t e = cc
  put_parsed-IsTyped ok v (some a) s s' p t e =
      subst IsTyped (some_inj (put a s) s' e) (ok v a s p t)

  put_variable-Keeps : Puts → (var : Variable) → Keeps (put_variable parse put var)
  put_variable-Keeps ok unset s s' t e = subst IsTyped (some_inj s s' e) t
  put_variable-Keeps ok not_unicode s s' t e = cc
  put_variable-Keeps ok (set_to v) s s' t e = put_parsed-IsTyped ok v (parse v) s s' refl t e

override-Keeps :
    {A : Type 0} (host : Host) (name : Text) (parse : Text → Option A)
    (put : A → Settings → Settings)
    → ((v : Text) (a : A) (s : Settings) → parse v ≡ some a → IsTyped s → IsTyped (put a s))
    → Keeps (override host name parse put)
override-Keeps host name parse put ok = put_variable-Keeps parse put ok (host.env_var name)

pub overrides-Keeps : (host : Host) → All Keeps (overrides host)
overrides-Keeps host = (
  override-Keeps host _ _ _ (λ v a s e t. t),
  (
    override-Keeps host _ _ _ (λ v a s e t. t),
    (
      override-Keeps host _ _ _ (λ v a s e t. t),
      (
        override-Keeps host _ _ _ (λ v a s e t. (parse_uint-le u16_max v a e, t.1, t.2)),
        (
          override-Keeps host _ _ _ (λ v a s e t. (t.0, parse_uint-le u16_max v a e, t.2)),
          (
            override-Keeps host _ _ _ (λ v a s e t. (t.0, t.1, parse_backends-HasPorts v a e)),
            (
              override-Keeps host _ _ _ (λ v a s e t. t),
              (
                override-Keeps host _ _ _ (λ v a s e t. t),
                (
                  override-Keeps host _ _ _ (λ v a s e t. t),
                  (
                    override-Keeps host _ _ _ (λ v a s e t. t),
                    (
                      override-Keeps host _ _ _ (λ v a s e t. t),
                      (
                        override-Keeps host _ _ _ (λ v a s e t. t),
                        (
                          override-Keeps host _ _ _ (λ v a s e t. t),
                          (
                            override-Keeps host _ _ _ (λ v a s e t. t),
                            (
                              override-Keeps host _ _ _ (λ v a s e t. t),
                              (
                                override-Keeps host _ _ _ (λ v a s e t. t),
                                (
                                  override-Keeps host _ _ _ (λ v a s e t. t),
                                  (
                                    override-Keeps host _ _ _ (λ v a s e t. t),
                                    (
                                      override-Keeps host _ _ _ (λ v a s e t. t),
                                      (
                                        override-Keeps host _ _ _ (λ v a s e t. t),
                                        (
                                          override-Keeps host _ _ _ (λ v a s e t. t),
                                          (
                                            override-Keeps host _ _ _ (λ v a s e t. t),
                                            (
                                              override-Keeps host _ _ _ (λ v a s e t. t),
                                              (
                                                override-Keeps host _ _ _ (λ v a s e t. t),
                                                (override-Keeps host _ _ _ (λ v a s e t. t), tt),
                                              ),
                                            ),
                                          ),
                                        ),
                                      ),
                                    ),
                                  ),
                                ),
                              ),
                            ),
                          ),
                        ),
                      ),
                    ),
                  ),
                ),
              ),
            ),
          ),
        ),
      ),
    ),
  ),
)

pub apply_each-IsTyped :
    (os : List (Settings → Option Settings)) → All Keeps os → Keeps (apply_each os)
unfolding apply_each
apply_each-IsTyped [] k s s' t e = subst IsTyped (some_inj s s' e) t
apply_each-IsTyped (o ∷ os) k s s' t e =
    let (next, first, later) = >>=-eq-some (o s) (apply_each os) e in
    apply_each-IsTyped os k.1 next s' (k.0 s next t first) later
