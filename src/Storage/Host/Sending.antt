-- ===== src/Storage/Host/Sending.antt =====
-- Texts given to `send` of one connection of a server.
use diginext.Base.{ℕ, ◌≡◌, refl, sym, ap, subst, ◌∙◌, List, [], ◌∷◌, ◌++◌, All, ok, bind_step}
use diginext.Tcp.Message.Stream.{IsSendable}
use diginext.Tcp.Channel.{frame_of, frames_of}
use diginext.Tcp.Server
use diginext.Tcp.Server.{ServerEffect, of_connection, set_object, handle_effects, call}
use diginext.Storage.Host.{send_texts}
use diginext.Tcp.Server.Sending.{
  IsStarted, Grown, Grown-none, Grown-more, Sent, send_one, writes_at, writes_at-append,
}

pub send_texts-append_frames :
    (texts : List (List ℕ)) (p : ℕ) (s : Server.Server)
    → All IsSendable texts
    → IsStarted (s.objects p)
    → (t : Server.Server) × (es : List ServerEffect) × (send_texts texts p s ≡ ok (t, es))
      × Sent p (frames_of texts) s t es
unfolding send_texts writes_at
send_texts-append_frames [] p s h started = (
  s,
  [],
  refl,
  record { listed = refl; queued = Grown-none (s.objects p); others = λ k n. (refl, refl) },
)
send_texts-append_frames (text ∷ texts) p s h started =
    let (t, es, run, one) = send_one p text s h.0 started in
    let (u, fs, rest, more) = send_texts-append_frames texts p t h.1 (one.queued.started started) in
    (
      u,
      es ++ fs,
      bind_step _ run (bind_step _ rest refl),
      record {
        listed = more.listed ∙ one.listed;
        queued =
            subst (Grown (frames_of (text ∷ texts)) (s.objects p) (u.objects p))
              (sym (writes_at-append p es fs))
              (Grown-more (frame_of text ∷ []) (frames_of texts) (s.objects p) (t.objects p)
                (u.objects p) (writes_at p es) (writes_at p fs) one.queued more.queued);
        others = λ k n. (
          (more.others k n).0 ∙ (one.others k n).0,
          writes_at-append k es fs
              ∙ ap (λ l. l ++ writes_at k fs) (one.others k n).1
              ∙ (more.others k n).1,
        );
      },
    )
