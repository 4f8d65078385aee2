-- ===== src/Ssl.antt =====
-- `SSLserver::InitializeSSL`. OpenSSL is a parameter.
use mathlib.Core.Path.{subst}
use amsserver.Base.{
  Bytes, Option, codes, refl, ◌≡◌, if◌then◌else◌, none, some, true, false, inl, inr, Bool,
  Option-cases, not, ◌&&◌, Bool-cases, sym,
}

-- What the method uses of OpenSSL. Each call on a context may change it; a result is whether the call
-- succeeds, and `none` is NULL. `Context` holds the state of the library, too.
pub record OpenSsl : Type 1 where
  pub Context : Type 0
  pub ssl_ctx_new : Option Context
  pub use_certificate_file : Context → Bytes → Context × Bool
  pub use_private_key_file : Context → Bytes → Context × Bool
  pub check_private_key : Context → Bool

abbrev pub certf : Bytes
certf = codes ".\\cert\\server\\server-cert.pem"

abbrev pub keyf : Bytes
keyf = codes ".\\cert\\server\\server-key.pem"

module _ (o : OpenSsl) where
  -- The method from the private key on, and from the certificate on: the member `ctx`, and the result.
  unfoldable pub use_key : o.Context → Option o.Context × Bool
  use_key ctx =
      let (keyed, ok) = o.use_private_key_file ctx keyf in
      if not ok then (some keyed, false) else (some keyed, o.check_private_key keyed)

  unfoldable pub use_certificate : o.Context → Option o.Context × Bool
  unfolding use_key
  use_certificate ctx =
      let (certified, ok) = o.use_certificate_file ctx certf in
      if not ok then (some certified, false) else use_key certified

  unfoldable pub initialize_ssl : Option o.Context × Bool
  unfolding use_certificate
  initialize_ssl = elim o.ssl_ctx_new [ none ↦ (none, false) | some ctx ↦ use_certificate ctx ]

  -- A context that OpenSSL has made, with the certificate, its private key, and the two checked.
  pub data IsServing (last : o.Context) : Type 0 where
    serving :
        (ctx certified : o.Context)
        → o.ssl_ctx_new ≡ some ctx
        → o.use_certificate_file ctx certf ≡ (certified, true)
        → o.use_private_key_file certified keyf ≡ (last, true)
        → o.check_private_key last ≡ true
        → IsServing last

  -- What the method comes to.
  pub data Initialized (r : Option o.Context × Bool) : Type 0 where
    initialized : (last : o.Context) → IsServing last → r ≡ (some last, true) → Initialized r
    no_context : o.ssl_ctx_new ≡ none → r ≡ (none, false) → Initialized r
    no_certificate :
        (ctx last : o.Context)
        → o.ssl_ctx_new ≡ some ctx
        → o.use_certificate_file ctx certf ≡ (last, false)
        → r ≡ (some last, false)
        → Initialized r
    no_key :
        (ctx certified last : o.Context) (ok : Bool)
        → o.ssl_ctx_new ≡ some ctx
        → o.use_certificate_file ctx certf ≡ (certified, true)
        → o.use_private_key_file certified keyf ≡ (last, ok)
        → ok && o.check_private_key last ≡ false
        → r ≡ (some last, false)
        → Initialized r

  use_key-Initialized :
      (ctx certified : o.Context)
      → o.ssl_ctx_new ≡ some ctx
      → o.use_certificate_file ctx certf ≡ (certified, true)
      → (p : o.Context × Bool) → o.use_private_key_file certified keyf ≡ p
      → Initialized (if not p.1 then (some p.0, false) else (some p.0, o.check_private_key p.0))
  use_key-Initialized ctx certified c f (keyed, false) e =
      no_key ctx certified keyed false c f e refl refl
  use_key-Initialized ctx certified c f (keyed, true) e =
      elim (Bool-cases (o.check_private_key keyed)) [
        | inl k ↦ initialized keyed (serving ctx certified c f e k) (rw k refl)
        | inr k ↦ no_key ctx certified keyed true c f e k (rw k refl)
      ]

  use_certificate-Initialized :
      (ctx : o.Context)
      → o.ssl_ctx_new ≡ some ctx
      → (p : o.Context × Bool) → o.use_certificate_file ctx certf ≡ p
      → Initialized (if not p.1 then (some p.0, false) else use_key p.0)
  unfolding use_key
  use_certificate-Initialized ctx c (certified, false) e = no_certificate ctx certified c e refl
  use_certificate-Initialized ctx c (certified, true) e =
      use_key-Initialized ctx certified c e (o.use_private_key_file certified keyf) refl

  -- `InitializeSSL` returns TRUE with a context that has the certificate and its checked private key.
  -- It returns FALSE if a call of OpenSSL fails, and then it still holds the context that was made.
  pub initialize_ssl-Initialized : Initialized initialize_ssl
  unfolding initialize_ssl
  initialize_ssl-Initialized = elim (Option-cases o.ssl_ctx_new) [
    | inl e ↦ no_context e (rw e refl)
    | inr (ctx, e) ↦
        subst Initialized (sym (rw e refl))
          (use_certificate-Initialized ctx e (o.use_certificate_file ctx certf) refl)
  ]
