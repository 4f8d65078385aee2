-- ===== src/Server/System/Tame.antt =====
-- Building a response accesses no object of the heap.
use amsserver.Crt.Number.{decimal}
use amsserver.HttpData.Tame.{strcat_s-IsTame, handle_http_data-IsTame}
use amsserver.Crt.Scan.{before}
use amsserver.HttpData.Build.{handle_http_data}
use amsserver.Crt.Text.{strcat_s}
use amsserver.HttpData.State.{HttpData}
use amsserver.Server.Http.{check_recv_buf_end, content_length, derive_check_recv, derive_build_send}
use amsserver.Server.Response.{append_body, build_send}
use amsserver.Io.Buffer.{read_text, append_text, PerIoData, buffersize}
use amsserver.Base.{
  Bytes, ℕ, IsTame, IsTame-if, IsTame-bind, leb, length, codes, not, ◌++◌, ltb, true, false, done,
  crash, Bool, underrun,
}

pub read_text-IsTame : (d : PerIoData) → IsTame (read_text d)
unfolding read_text
read_text-IsTame d = IsTame-if (leb buffersize (length (before 0 d.buf))) _ _ (λ e. cc) tt

append_text-IsTame : (d : PerIoData) (t : Bytes) → IsTame (append_text d t)
unfolding append_text
append_text-IsTame d t = IsTame-bind (read_text d) _ (read_text-IsTame d) λ s.
    IsTame-bind (strcat_s buffersize d.len s t) _ (strcat_s-IsTame buffersize d.len s t) (λ r. tt)

append_body-IsTame : (d : PerIoData) (t : Bytes) → IsTame (append_body d t)
unfolding append_body content_length
append_body-IsTame d t =
    IsTame-bind (content_length (length t)) _
      (IsTame-if (leb 32 (length (codes "Content-Length: " ++ decimal (length t)))) _ _ (λ e. cc)
        tt)
      λ l. IsTame-bind (append_text d l) _ (append_text-IsTame d l) λ x.
        IsTame-bind (append_text x (codes "\r\n\r\n")) _ (append_text-IsTame x (codes "\r\n\r\n"))
          λ y. IsTame-bind (append_text y t) _ (append_text-IsTame y t) λ z.
            IsTame-if {A = PerIoData × Bool} (derive_build_send z) (done (z, true))
              (done (z, false)) tt tt

pub build_send-IsTame :
    (sizes : Bytes → ℕ) (d : PerIoData) (x : HttpData) → IsTame (build_send sizes d x)
unfolding build_send
build_send-IsTame sizes d x =
    IsTame-bind (append_text d (codes "HTTP/1.1 200 OK")) _ (append_text-IsTame d _) λ e.
      IsTame-bind (append_text e (codes "\r\n")) _ (append_text-IsTame e _) λ f.
        IsTame-bind (append_text f (codes "Content-Type: text/html")) _ (append_text-IsTame f _)
          λ g. IsTame-bind (append_text g (codes "\r\n")) _ (append_text-IsTame g _) λ h.
            IsTame-bind (handle_http_data sizes x) _ (handle_http_data-IsTame sizes x)
              λ (y, r). IsTame-if r _ _ (append_body-IsTame h y.payloadbuf) tt

pub check_recv_buf_end-IsTame : (n : ℕ) (t : Bytes) → IsTame (check_recv_buf_end n t)
unfolding check_recv_buf_end
check_recv_buf_end-IsTame n t =
    IsTame-if (not (derive_check_recv n)) (done false) _ tt
      (IsTame-if (ltb n 4) (crash underrun) _ (λ e. cc) tt)
