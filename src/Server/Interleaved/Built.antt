-- ===== src/Server/Interleaved/Built.antt =====
-- Building a response leaves the kind of operation of its io.
use amsserver.HttpData.Build.{handle_http_data}
use mathlib.Core.Path.{subst}
use amsserver.Server.Http.{content_length, derive_build_send}
use amsserver.Crt.Text.{strcat_s}
use amsserver.Server.Response.{append_body, build_send}
use amsserver.Io.Buffer.{OperationType, PerIoData, append_text, read_text, buffersize}
use amsserver.Base.{
  refl, ◌≡◌, if◌then◌else◌, true, false, done, crash, Outcome, Bytes, ◌>>=◌, ℕ, Bool, codes, length,
}
use amsserver.HttpData.State.{HttpData}

-- If the run returns, `P` holds of the value.
abbrev IfReturns : {A : Type 0} → Outcome A → (A → Type 0) → Type 0
IfReturns (done a) P = P a
IfReturns (crash e) P = Unit {0}

IfReturns-bind :
    {A B : Type 0} (m : Outcome A) (f : A → Outcome B) (P : A → Type 0) (Q : B → Type 0)
    → IfReturns m P
    → ((a : A) → P a → IfReturns (f a) Q)
    → IfReturns (m >>= f) Q
IfReturns-bind (done a) f P Q p k = k a p
IfReturns-bind (crash e) f P Q p k = tt

any_returns : {A : Type 0} (m : Outcome A) → IfReturns m (λ _. Unit {0})
any_returns (done a) = tt
any_returns (crash e) = tt

module _ (o : OperationType) where
  abbrev Has : PerIoData → Type 0
  Has d = d.operationtype ≡ o

  append_text-Has : (d : PerIoData) (t : Bytes) → Has d → IfReturns (append_text d t) Has
  unfolding append_text
  append_text-Has d t h =
      IfReturns-bind (read_text d) _ (λ _. Unit {0}) Has (any_returns (read_text d))
        λ s u.
          IfReturns-bind (strcat_s buffersize d.len s t) _ (λ _. Unit {0}) Has
            (any_returns (strcat_s buffersize d.len s t)) (λ l v. h)

  append_body-Has : (d : PerIoData) (t : Bytes) → Has d → IfReturns (append_body d t) (λ b. Has b.0)
  unfolding append_body
  append_body-Has d t h =
      IfReturns-bind (content_length (length t)) _ (λ _. Unit {0}) (λ b. Has b.0)
        (any_returns (content_length (length t)))
        λ l u.
          IfReturns-bind (append_text d l) _ Has (λ b. Has b.0) (append_text-Has d l h)
            λ x i.
              IfReturns-bind (append_text x (codes "\r\n\r\n")) _ Has (λ b. Has b.0)
                (append_text-Has x _ i)
                λ y j.
                  IfReturns-bind (append_text y t) _ Has (λ b. Has b.0) (append_text-Has y t j)
                    λ z k. either (derive_build_send z) z k
    where
      either :
          (b : Bool) (z : PerIoData)
          → Has z
          → IfReturns {A = PerIoData × Bool}
              (if b then done (z, true) else done (z, false))
              (λ b. Has b.0)
      either true z k = k
      either false z k = k

  build_send-Has :
      (sizes : Bytes → ℕ) (d : PerIoData) (x : HttpData)
      → Has d
      → IfReturns (build_send sizes d x) (λ b. Has b.0)
  unfolding build_send
  build_send-Has sizes d x h =
      IfReturns-bind (append_text d (codes "HTTP/1.1 200 OK")) _ Has (λ b. Has b.0)
        (append_text-Has d _ h)
        λ e i.
          IfReturns-bind (append_text e (codes "\r\n")) _ Has (λ b. Has b.0) (append_text-Has e _ i)
            λ f j.
              IfReturns-bind (append_text f (codes "Content-Type: text/html")) _ Has (λ b. Has b.0)
                (append_text-Has f _ j)
                λ g k.
                  IfReturns-bind (append_text g (codes "\r\n")) _ Has (λ b. Has b.0)
                    (append_text-Has g _ k)
                    λ q l.
                      IfReturns-bind (handle_http_data sizes x) _ (λ _. Unit {0}) (λ b. Has b.0)
                        (any_returns (handle_http_data sizes x))
                        λ (y, r) u. either r q y.payloadbuf l
    where
      either :
          (r : Bool) (q : PerIoData) (t : Bytes)
          → Has q
          → IfReturns {A = PerIoData × Bool}
              (if r then append_body q t else done (q, false))
              (λ b. Has b.0)
      either true q t l = append_body-Has q t l
      either false q t l = l

pub build_send-kind :
    (sizes : Bytes → ℕ) (d b : PerIoData) (x : HttpData) (r : Bool)
    → build_send sizes d x ≡ done (b, r)
    → b.operationtype ≡ d.operationtype
build_send-kind sizes d b x r e =
    subst (λ o. IfReturns o (λ b. b.0.operationtype ≡ d.operationtype)) e
      (build_send-Has d.operationtype sizes d x refl)
