-- ===== src/Tcp/Connection/Quiet.antt =====
-- The handlers of a connection that neither fire `onDisconnected` nor post the task of `stop`.
use diginext.Base.{
  ℕ, ◌≡◌, refl, sym, ap, ◌∙◌, inl, inr, Bool-cases, Option-cases, true, false, Bool, Option, none,
  some, List, [], ◌∷◌, ◌++◌, map, All, All-append, Outcome, ok, throws, undefined, out_of_fuel,
  bind_step, bind_inversion, ok_injective, arith, subst, if◌then◌else◌,
}
use diginext.Tcp.Message.{Splitter, read_bytes, frame}
use diginext.Tcp.Connection.{
  Connection, ErrorCode, on_disconnected, on_read_message, on_send_error, Effect, fires,
  async_read_until, async_write_some, post_close, read_message, fire, fire_all, send_error,
  write_front, pop_front, push_frame, async_write, handle_read, handle_write, send, close_task,
  shutdown_both, close_socket,
}

-- It neither fires `onDisconnected` nor posts the task of `stop`.
unfoldable pub IsQuiet : Effect → Type 0
IsQuiet (fires on_disconnected) = ⊥
IsQuiet post_close = ⊥
IsQuiet _ = Unit

-- What a handler leaves of the connection, and what it does.
abbrev pub Leaves : Connection → Connection → List Effect → Type 0
Leaves c d es = (d.slots ≡ c.slots) × All IsQuiet es

IsQuiet-messages :
    (c : Connection) (ms : List (List ℕ))
    → All IsQuiet (fire_all c (map on_read_message ms) ++ async_read_until ∷ [])
unfolding IsQuiet
IsQuiet-messages c [] = (tt, tt)
IsQuiet-messages c (m ∷ ms) = elim (Bool-cases (c.slots read_message)) [
  | inl e ↦ rw e (tt, IsQuiet-messages c ms)
  | inr e ↦ rw e (IsQuiet-messages c ms)
]

pub handle_read-Leaves :
    (b : Splitter) (n : ℕ) (c d : Connection) (es : List Effect)
    → handle_read b none n c ≡ ok (d, es)
    → Leaves c d es × ((before : List Effect) × (es ≡ before ++ async_read_until ∷ []))
unfolding handle_read
handle_read-Leaves b n c d es e =
    let ((ms, part), run, rest) = bind_inversion (read_bytes b c.part_message c.message) _ e in
    subst
      (λ (r : Connection × List Effect).
        Leaves c r.0 r.1 × ((before : List Effect) × (r.1 ≡ before ++ async_read_until ∷ [])))
      (ok_injective _ (d, es) rest)
      ((refl, IsQuiet-messages c ms), (fire_all c (map on_read_message ms), refl))

write_front-Leaves :
    (fs : List (List ℕ)) (c : Connection)
    → (d : Connection) × (es : List Effect) × (write_front fs c ≡ ok (d, es)) × Leaves c d es
unfolding write_front IsQuiet
write_front-Leaves [] c = (_, [], refl, (refl, tt))
write_front-Leaves (f ∷ fs) c = (_, async_write_some f ∷ [], refl, (refl, (tt, tt)))

pub handle_write-Leaves :
    (error : Option ErrorCode) (bytes : ℕ) (c : Connection)
    → (d : Connection) × (es : List Effect) × (handle_write error bytes c ≡ ok (d, es))
      × Leaves c d es
unfolding handle_write async_write IsQuiet
handle_write-Leaves none bytes c =
    let (d, es, run, (kept, quiet)) =
      write_front-Leaves (pop_front c.send_buffer)
        (record c { send_buffer = pop_front c.send_buffer }) in
    (d, es, bind_step _ run refl, (kept, quiet))
handle_write-Leaves (some code) bytes c =
    let (d, es, run, (kept, quiet)) =
      write_front-Leaves (pop_front c.send_buffer)
        (record c { send_buffer = pop_front c.send_buffer }) in
    (
      d,
      fire c (on_send_error code bytes) ++ es,
      bind_step _ run refl,
      (
        kept,
        All-append _ (fire c (on_send_error code bytes)) es (reported (c.slots send_error)) quiet,
      ),
    )
  where
    reported : (x : Bool) → All IsQuiet (if x then fires (on_send_error code bytes) ∷ [] else [])
    reported true = (tt, tt)
    reported false = tt

async_write-Leaves :
    (c d : Connection) (es : List Effect) → async_write true c ≡ ok (d, es) → Leaves c d es
unfolding async_write IsQuiet
async_write-Leaves c d es = elim (Option-cases c.send_start) [
  | inl n ↦ λ e. absurd (ground (arith, e, n))
  | inr (true, s) ↦ λ e.
      subst (λ (r : Connection × List Effect). Leaves c r.0 r.1)
        (ok_injective (c, []) (d, es) (ground (arith, e, s))) (refl, tt)
  | inr (false, s) ↦ λ e.
      let (k, fs, run, kept) =
        write_front-Leaves c.send_buffer (record c { send_start = some true }) in
      subst (λ (r : Connection × List Effect). Leaves c r.0 r.1)
        (ok_injective (k, fs) (d, es) (sym run ∙ ground (arith, e, s))) kept
]

pub send-Leaves :
    (msg : List ℕ) (c d : Connection) (es : List Effect) → send msg c ≡ ok (d, es) → Leaves c d es
unfolding send
send-Leaves msg c d es e =
    let (k, pushed, rest) = bind_inversion (push_frame (frame msg) c) _ e in
    let (kept, quiet) = async_write-Leaves k d es rest in
    (kept ∙ same_slots (frame msg) k pushed, quiet)
  where
    same_slots : (o : Outcome (List ℕ)) (k : Connection) → push_frame o c ≡ ok k → k.slots ≡ c.slots
    same_slots (ok f) k e = ap (λ c. c.slots) (sym (ok_injective _ _ e))
    same_slots (throws x) k e = ap (λ c. c.slots) (sym (ok_injective _ _ e))
    same_slots undefined k e = absurd (ground (arith, e))
    same_slots out_of_fuel k e = absurd (ground (arith, e))

pub close_task-IsQuiet :
    (c : Connection)
    → (d : Connection) × (es : List Effect) × (close_task c ≡ ok (d, es)) × All IsQuiet es
unfolding close_task IsQuiet
close_task-IsQuiet c = (_, shutdown_both ∷ close_socket ∷ [], refl, (tt, (tt, tt)))
